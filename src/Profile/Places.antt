-- ===== src/Profile/Places.antt =====
-- The three files of internal/profile/profile.go.
use dddns.Prelude.{◌≡◌, ◌≢◌, refl}
use dddns.Prelude.Result.{ok, err, Result-cases}
use dddns.Prelude.Text.{Text, codes}
use dddns.Prelude.FilePath.{join}
use dddns.Prelude.FilePath.Names.{IsName, join-ne}
use dddns.Profile.{Profile, Host, get_data_dir, get_config_path, get_secure_path, get_cache_path}
use dddns.Prelude.{arith, inl}
use dddns.Prelude.Text.{split}
use dddns.Prelude.{inr}
use dddns.Prelude.Text.{text_eq}
use dddns.Prelude.FilePath.{is_rooted}

abbrev pub config_name : Text
config_name = codes "config.yaml"

abbrev pub secure_name : Text
secure_name = codes "config.secure"

abbrev pub cache_name : Text
cache_name = codes "last-ip.txt"

pub config_name-IsName : IsName config_name
unfolding split text_eq is_rooted
config_name-IsName = record { whole = refl; plain = (refl, refl, refl); unrooted = refl }

pub secure_name-IsName : IsName secure_name
unfolding split text_eq is_rooted
secure_name-IsName = record { whole = refl; plain = (refl, refl, refl); unrooted = refl }

cache_name-IsName : IsName cache_name
unfolding split text_eq is_rooted
cache_name-IsName = record { whole = refl; plain = (refl, refl, refl); unrooted = refl }

-- The places of the files: all three in one directory, at different paths, or none.
pub data Places (h : Host) (p : Profile) : Type 0 where
  known :
      (config secure cache : Text)
      → get_config_path h p ≡ ok config
      → get_secure_path h p ≡ ok secure
      → get_cache_path h p ≡ ok cache
      → config ≢ secure
      → config ≢ cache
      → secure ≢ cache
      → Places h p
  unknown :
      (e : Text)
      → h.home ≡ err e
      → get_config_path h p ≡ err e
      → get_secure_path h p ≡ err e
      → get_cache_path h p ≡ err e
      → Places h p

get_data_dir-error : (h : Host) (p : Profile) (e : Text) → get_data_dir h p ≡ err e → h.home ≡ err e
unfolding get_data_dir
get_data_dir-error h p e bad = ground arith

-- A profile has a path for each of its three files, and they are three different ones; or it has none
-- of them, with the error of the lookup of the home directory, which then failed.
pub profile-Places : (h : Host) (p : Profile) → Places h p
unfolding text_eq get_config_path get_secure_path get_cache_path
profile-Places h p = elim (Result-cases (get_data_dir h p)) [
  | inl (d, e) ↦
      known (join d config_name) (join d secure_name) (join d cache_name) (rw e) (rw e) (rw e)
        (join-ne d config_name secure_name config_name-IsName secure_name-IsName refl)
        (join-ne d config_name cache_name config_name-IsName cache_name-IsName refl)
        (join-ne d secure_name cache_name secure_name-IsName cache_name-IsName refl)
  | inr (e, bad) ↦ unknown e (get_data_dir-error h p e bad) (rw bad) (rw bad) (rw bad)
]
