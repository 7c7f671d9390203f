-- ===== src/Tests/Paths.antt =====
-- Paths, as filepath documents them.
use dddns.Prelude.{◌≡◌, refl}
use dddns.Prelude.Text.{codes, split, text_eq}
use dddns.Prelude.FilePath.{clean, dir, join}

cleaned : clean (codes "/a//b/./../c/") ≡ codes "/a/c"
unfolding clean split text_eq
cleaned = refl

above_root : clean (codes "/../a") ≡ codes "/a"
unfolding clean split text_eq
above_root = refl

relative : clean (codes "../../a/..") ≡ codes "../.."
unfolding clean split text_eq
relative = refl

parent : dir (codes "/data/.dddns/last-ip.txt") ≡ codes "/data/.dddns"
unfolding dir split text_eq
parent = refl

no_parent : dir (codes "last-ip.txt") ≡ codes "."
unfolding dir split text_eq
no_parent = refl

joined : join (codes "/root/") (codes ".dddns") ≡ codes "/root/.dddns"
unfolding join split text_eq
joined = refl
