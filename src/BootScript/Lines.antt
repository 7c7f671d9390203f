-- ===== src/BootScript/Lines.antt =====
-- The text of internal/bootscript/bootscript.go, line by line.
use Prim.Native.Nat.{◌/◌, ◌%◌, ◌+◌, ◌-◌}
use dddns.Prelude.{ℕ, ◌||◌, List, [], ◌∷◌, ◌++◌}
use dddns.Prelude.Tests.{ltb, ◌==◌, if◌then◌else◌}
use dddns.Prelude.Text.{Text, codes}

-- Each line with its end.
unfoldable pub unlines : List Text → Text
unlines [] = []
unlines (l ∷ ls) = l ++ 10 ∷ unlines ls

unfoldable pub hex_lower : ℕ → ℕ
hex_lower n = if ltb n 10 then b'0' + n else b'a' + (n - 10)

-- One byte in `%q`. A byte of a letter beyond ASCII stands for itself.
unfoldable pub quote_byte : ℕ → Text
unfolding hex_lower
quote_byte c =
    if (c == b'"') || (c == 92)
    then 92 ∷ c ∷ []
    else if c == 7
    then codes "\\a"
    else if c == 8
    then codes "\\b"
    else if c == 12
    then codes "\\f"
    else if c == 10
    then codes "\\n"
    else if c == 13
    then codes "\\r"
    else if c == 9
    then codes "\\t"
    else if c == 11
    then codes "\\v"
    else if ltb c 32 || (c == 127)
    then codes "\\x" ++ hex_lower (c / 16) ∷ hex_lower (c % 16) ∷ []
    else c ∷ []

unfoldable pub quote_bytes : Text → Text
quote_bytes [] = []
quote_bytes (c ∷ s) = quote_byte c ++ quote_bytes s

-- `%q` of package fmt.
unfoldable pub quote : Text → Text
unfolding quote_bytes
quote s = b'"' ∷ (quote_bytes s ++ b'"' ∷ [])

-- Two letters of the comments, in UTF-8.
abbrev em_dash : Text
em_dash = 226 ∷ 128 ∷ 148 ∷ []

abbrev arrow : Text
arrow = 226 ∷ 134 ∷ 146 ∷ []

-- `commonHeader` before its paths.
unfoldable pub header_start : List Text
header_start =
    codes "#!/bin/sh"
    ∷ (codes "# dddns boot script "
        ++ (em_dash ++ codes " generated by \"dddns config set-mode\"."))
    ∷ codes "# Do not edit by hand; re-run set-mode to change the mode."
    ∷ codes "set -eu"
    ∷ []
    ∷ []

-- `commonHeader` behind its paths.
unfoldable pub header_end : List Text
header_end =
    codes "SYSTEMD_UNIT=/etc/systemd/system/dddns.service"
    ∷ []
    ∷ codes "# Keep /usr/local/bin/dddns as a symlink to the /data-resident binary"
    ∷ codes "# so it survives /usr rewrites across firmware upgrades."
    ∷ codes "if [ -f \"$BINARY\" ]; then"
    ∷ codes "    ln -sf \"$BINARY\" /usr/local/bin/dddns"
    ∷ codes "fi"
    ∷ []
    ∷ codes "# Create the config dir with owner-only perms if absent."
    ∷ codes "if [ ! -d \"$CONFIG_DIR\" ]; then"
    ∷ codes "    mkdir -p \"$CONFIG_DIR\""
    ∷ codes "    chmod 700 \"$CONFIG_DIR\""
    ∷ codes "fi"
    ∷ []

-- `cronTail` before the schedule.
unfoldable pub cron_start : List Text
cron_start =
    []
    ∷ codes "# --- cron mode ---"
    ∷ []
    ∷ codes "# Stop + disable the serve systemd unit if present (guards switching"
    ∷ codes "# from serve to cron). The unit file at /etc/systemd/system/ is the"
    ∷ (codes "# source of truth "
        ++ (em_dash ++ codes " removing it from /data/ alone would be undone on"))
    ∷ codes "# the next boot."
    ∷ codes "if [ -f \"$SYSTEMD_UNIT\" ]; then"
    ∷ codes "    systemctl stop dddns.service >/dev/null 2>&1 || true"
    ∷ codes "    systemctl disable dddns.service >/dev/null 2>&1 || true"
    ∷ codes "    rm -f \"$SYSTEMD_UNIT\""
    ∷ codes "    systemctl daemon-reload >/dev/null 2>&1 || true"
    ∷ codes "fi"
    ∷ []
    ∷ codes "# Install / refresh the cron entry."
    ∷ codes "#"
    ∷ (codes "# Output goes through logger(1) "
        ++ (arrow ++ (codes " /dev/log " ++ (arrow ++ codes " systemd-journald. Journald"))))
    ∷ codes "# handles rotation itself; we don't need the old /var/log/dddns.log flat"
    ∷ codes "# file any more. View recent output with:"
    ∷ codes "#   journalctl -t dddns --since \"24h ago\""
    ∷ codes "# Stderr is merged into stdout before the pipe so error lines (\"failed"
    ∷ codes "# to update Route53: ...\") reach the journal too. --quiet keeps noop"
    ∷ codes "# runs silent; the journal only grows on real events."
    ∷ codes "cat > \"$CRON_PATH\" <<'CRON'"
    ∷ codes "SHELL=/bin/bash"
    ∷ codes "PATH=/usr/local/sbin:/usr/local/bin:/usr/sbin:/usr/bin:/sbin:/bin"
    ∷ []

-- `cronTail` behind the schedule.
unfoldable pub cron_end : List Text
cron_end = codes "CRON" ∷ [] ∷ codes "/etc/init.d/cron restart >/dev/null 2>&1 || true" ∷ []

-- `serveTail`.
unfoldable pub serve_tail : List Text
serve_tail =
    []
    ∷ codes "# --- serve mode ---"
    ∷ []
    ∷ codes "# Remove any stale cron entry (guards switching from cron to serve)."
    ∷ codes "if [ -f \"$CRON_PATH\" ]; then"
    ∷ codes "    rm -f \"$CRON_PATH\""
    ∷ codes "    /etc/init.d/cron restart >/dev/null 2>&1 || true"
    ∷ codes "fi"
    ∷ []
    ∷ codes "# Install the systemd unit. /etc/systemd/system/ is wiped on firmware"
    ∷ (codes "# upgrade, which is also when this boot script re-runs "
        ++ (em_dash ++ codes " so the source"))
    ∷ codes "# of truth for the unit is this heredoc, not the installed file."
    ∷ codes "cat > \"$SYSTEMD_UNIT\" <<'UNIT'"
    ∷ codes "[Unit]"
    ∷ codes "Description=dddns serve-mode DNS updater"
    ∷ codes "Documentation=https://github.com/descoped/dddns"
    ∷ codes "After=network-online.target"
    ∷ codes "Wants=network-online.target"
    ∷ []
    ∷ codes "[Service]"
    ∷ codes "Type=simple"
    ∷ codes "ExecStart=/usr/local/bin/dddns serve"
    ∷ codes "Restart=always"
    ∷ codes "RestartSec=5"
    ∷ codes "# GOMEMLIMIT caps the Go heap (soft limit). dddns serve is idle most of the"
    ∷ codes "# time; this keeps RSS bounded under sustained inadyn push load on"
    ∷ codes "# memory-constrained routers (UDR7 / UDM family have modest RAM budgets)."
    ∷ codes "Environment=GOMEMLIMIT=16MiB"
    ∷ codes "StandardOutput=journal"
    ∷ codes "StandardError=journal"
    ∷ codes "SyslogIdentifier=dddns"
    ∷ codes "NoNewPrivileges=true"
    ∷ codes "ProtectSystem=strict"
    ∷ codes "ProtectHome=true"
    ∷ codes "PrivateTmp=true"
    ∷ codes "ReadWritePaths=/data/.dddns /var/log"
    ∷ []
    ∷ codes "[Install]"
    ∷ codes "WantedBy=multi-user.target"
    ∷ codes "UNIT"
    ∷ []
    ∷ codes "systemctl daemon-reload"
    ∷ codes "systemctl enable dddns.service >/dev/null 2>&1 || true"
    ∷ codes "systemctl restart dddns.service"
    ∷ []
