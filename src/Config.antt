-- ===== src/Config.antt =====
-- crates/sqnr/src/config.rs: the optional defaults in ~/.sqnr/config.
pub mod Force
use sqnr.Base.{ℕ, Option, none, some, ◌++◌, Result, ok, err, map_err, if◌then◌else◌}
use sqnr.Text.Utf8.{Text, codes}
use sqnr.Effect.{Act, rename, lift, ◌>>=◌}
use sqnr.Fs.{Fs}
use sqnr.Client.{set_envelope_version}

module _ (F : Fs) where
  pub record Config : Type 0 where
    pub server : Option Text
    pub server_key : Option Text
    pub identity : Option F.PathBuf
    pub envelope_version : Option ℕ

  unfoldable pub default_config : Config
  default_config = record {
    server = none;
    server_key = none;
    identity = none;
    envelope_version = none;
  }

  -- `from_file`; `toml::from_str` is a parameter.
  unfoldable pub from_file : (Text → Result Config Text) → F.PathBuf → Act F.World Config
  from_file toml path = do
    text ←
        rename (λ e. codes "read " ++ (F.display path ++ (codes ": " ++ e))) (F.read_to_string path)
    lift (map_err (toml text) (λ e. codes "parse " ++ (F.display path ++ (codes ": " ++ e))))

  -- `apply_transport`, on the process's envelope version.
  unfoldable pub apply_version : Option ℕ → ℕ → ℕ
  apply_version none setting = setting
  apply_version (some v) setting = set_envelope_version v setting

  unfoldable pub apply_transport : Config → ℕ → ℕ
  unfolding apply_version
  apply_transport c setting = apply_version c.envelope_version setting

  unwrap_or_default : Result Config Text → Config
  unwrap_or_default (ok c) = c
  unwrap_or_default (err e) = default_config

  config_path : Option F.PathBuf → Option F.PathBuf
  config_path none = none
  config_path (some h) = some (F.join (F.join h (codes ".sqnr")) (codes "config"))

  load_from : (Text → Result Config Text) → Option F.PathBuf → F.World → Config × F.World
  unfolding unwrap_or_default
  load_from toml none w = (default_config, w)
  load_from toml (some path) w =
      if F.exists path w
      then (let r = from_file toml path w in (unwrap_or_default r.0, r.1))
      else (default_config, w)

  -- `load`: the configuration, the envelope version after it, and the world.
  unfoldable pub load : (Text → Result Config Text) → ℕ → F.World → Config × ℕ × F.World
  unfolding load_from config_path
  load toml setting w =
      let (c, v) = load_from toml (config_path (F.home_dir w)) w in
      (c, apply_transport c setting, v)
