-- ===== src/Config/Force.antt =====
-- The envelope version of ~/.sqnr/config in connections.
use sqnr.Base.{
  ℕ, ◌≡◌, refl, ap, ◌&&◌, not, arith, true, false, Option, none, some, List, ok, err, Result,
  if◌then◌else◌, ◌==◌, Bool,
}
use sqnr.Text.Utf8.{Text, codes}
use sqnr.Text.Trim.{trim}
use sqnr.Text.Decimal.{unsigned, spells, value, parse_u8-value}
use sqnr.Fs.{Fs}
use sqnr.Client.{
  Http, SquicConfig, from_env, nonzero, envelope_version, set_envelope_version, connect_config,
  connect_as_config, dial, dial_config,
}
use sqnr.Client.Streams.{connect, connect_as}
use sqnr.Config.{
  Config, load, load_from, config_path, from_file, apply_transport, apply_version,
  unwrap_or_default, default_config,
}

-- What the variable exports: the decimal number below 256 that its text spells, white space round it or
-- a plus sign in front of it ignored, unless that is 0 or the text spells none.
abbrev pub exported : Option Text → Option ℕ
exported none = none
exported (some s) =
    let digits = unsigned (trim s) in
    if spells digits && not (value 0 digits == 0) then some (value 0 digits) else none

-- The version in force, from what the file sets, what was set before, and the environment: a file
-- that sets 0 takes back what was set before.
abbrev pub in_force : Option ℕ → ℕ → Option Text → Option ℕ
in_force none setting env = if setting == 0 then exported env else some setting
in_force (some n) setting env = if n == 0 then exported env else some n

from_env-exported : (env : Option Text) → from_env env ≡ exported env
unfolding from_env nonzero
from_env-exported none = refl
from_env-exported (some s) =
    rw (parse_u8-value (trim s))
      (counted (spells (unsigned (trim s))) (value 0 (unsigned (trim s))))
  where
    counted :
        (b : Bool) (n : ℕ)
        → nonzero (if b then some n else none) ≡ (if b && not (n == 0) then some n else none)
    counted true n = ground arith
    counted false n = refl

envelope_version-exported :
    (setting : ℕ) (env : Option Text)
    → envelope_version setting env ≡ (if setting == 0 then exported env else some setting)
unfolding envelope_version
envelope_version-exported setting env =
    ap (λ x. if setting == 0 then x else some setting) (from_env-exported env)

-- The defaults of squic with a version put in.
abbrev pub with_version : SquicConfig → Option ℕ → SquicConfig
with_version defaults none = defaults
with_version defaults (some n) = record defaults { envelope_version = n }

module _ (F : Fs) (toml : Text → Result (Config F) Text) where
  abbrev pub config_at : F.PathBuf → F.PathBuf
  config_at home = F.join (F.join home (codes ".sqnr")) (codes "config")

  -- What the file sets, in every state that it can be in.
  pub data Sets (w : F.World) : Option ℕ → Type 0 where
    no_home : F.home_dir w ≡ none → Sets w none
    no_file :
        {home : F.PathBuf}
        → F.home_dir w ≡ some home
        → F.exists (config_at home) w ≡ false
        → Sets w none
    unreadable :
        {home : F.PathBuf} {e : Text} {v : F.World}
        → F.home_dir w ≡ some home
        → F.exists (config_at home) w ≡ true
        → F.read_to_string (config_at home) w ≡ (err e, v)
        → Sets w none
    not_toml :
        {home : F.PathBuf} {text e : Text} {v : F.World}
        → F.home_dir w ≡ some home
        → F.exists (config_at home) w ≡ true
        → F.read_to_string (config_at home) w ≡ (ok text, v)
        → toml text ≡ err e
        → Sets w none
    given :
        {home : F.PathBuf} {text : Text} {c : Config F} {v : F.World}
        → F.home_dir w ≡ some home
        → F.exists (config_at home) w ≡ true
        → F.read_to_string (config_at home) w ≡ (ok text, v)
        → toml text ≡ ok c
        → Sets w c.envelope_version

  applied :
      (o : Option ℕ) (setting : ℕ) (env : Option Text)
      → envelope_version (apply_version F o setting) env ≡ in_force o setting env
  unfolding apply_version set_envelope_version
  applied none setting env = envelope_version-exported setting env
  applied (some n) setting env = envelope_version-exported n env

  -- What is in force after `load`.
  load-version :
      (setting : ℕ) (env : Option Text) (w : F.World) (o : Option ℕ)
      → Sets w o
      → envelope_version (load F toml setting w).1 env ≡ in_force o setting env
  unfolding load load_from config_path from_file unwrap_or_default apply_transport default_config
      apply_version
  load-version setting env w o (no_home h) = rw h (envelope_version-exported setting env)
  load-version setting env w o (no_file h1 h2) = rw (h1, h2) (envelope_version-exported setting env)
  load-version setting env w o (unreadable h1 h2 h3) =
      rw (h1, h2, h3) (envelope_version-exported setting env)
  load-version setting env w o (not_toml h1 h2 h3 h4) =
      rw (h1, h2, h3, h4) (envelope_version-exported setting env)
  load-version setting env w o (given {c = c} h1 h2 h3 h4) =
      rw (h1, h2, h3, h4) (applied c.envelope_version setting env)

  -- Whichever state the file is in.
  load-Sets : (w : F.World) → (o : Option ℕ) × Sets w o
  load-Sets w = at_home (F.home_dir w) refl
    where
      parsed :
          (home : F.PathBuf) (text : Text) (v : F.World) (r : Result (Config F) Text)
          → F.home_dir w ≡ some home
          → F.exists (config_at home) w ≡ true
          → F.read_to_string (config_at home) w ≡ (ok text, v)
          → toml text ≡ r
          → (o : Option ℕ) × Sets w o
      parsed home text v (ok c) h1 h2 h3 h4 = (c.envelope_version, given h1 h2 h3 h4)
      parsed home text v (err e) h1 h2 h3 h4 = (none, not_toml h1 h2 h3 h4)

      read :
          (home : F.PathBuf) (r : Result Text Text) (v : F.World)
          → F.home_dir w ≡ some home
          → F.exists (config_at home) w ≡ true
          → F.read_to_string (config_at home) w ≡ (r, v)
          → (o : Option ℕ) × Sets w o
      read home (ok text) v h1 h2 h3 = parsed home text v (toml text) h1 h2 h3 refl
      read home (err e) v h1 h2 h3 = (none, unreadable h1 h2 h3)

      there :
          (home : F.PathBuf) (b : Bool)
          → F.home_dir w ≡ some home
          → F.exists (config_at home) w ≡ b
          → (o : Option ℕ) × Sets w o
      there home true h1 h2 =
          read home (F.read_to_string (config_at home) w).0 (F.read_to_string (config_at home) w).1
            h1 h2 refl
      there home false h1 h2 = (none, no_file h1 h2)

      at_home : (m : Option F.PathBuf) → F.home_dir w ≡ m → (o : Option ℕ) × Sets w o
      at_home none h = (none, no_home h)
      at_home (some home) h = there home (F.exists (config_at home) w) h refl

  module _ (H : Http) (defaults : SquicConfig) (hex_encode : List ℕ → Text) where
    forced :
        (o : Option ℕ) (addr : H.Address) (server_pub seed : List ℕ)
        → (connect H defaults o addr server_pub
            ≡ connect H (with_version defaults o) none addr server_pub)
          × (connect_as H defaults hex_encode o addr server_pub seed
              ≡ connect_as H (with_version defaults o) hex_encode none addr server_pub seed)
    unfolding connect connect_as dial dial_config connect_config connect_as_config
    forced none addr server_pub seed = (refl, refl)
    forced (some n) addr server_pub seed = (refl, refl)

    -- After `load`, both ways of connecting go as with nothing set and defaults of the version in
    -- force: the file's, where it is there, can be read, is TOML and sets one other than 0; where it
    -- sets 0, the environment's; and else the one that was set before, or the environment's where none
    -- was. The environment's is the decimal number from 1 to 255 that the variable spells, with white
    -- space round it or a plus sign in front or not, if it spells one.
    pub connect-load :
        (setting : ℕ) (env : Option Text) (w : F.World) (addr : H.Address)
        (server_pub seed : List ℕ)
        → (o : Option ℕ) × Sets w o
          × let version = envelope_version (load F toml setting w).1 env in
            let used = with_version defaults (in_force o setting env) in
            (connect H defaults version addr server_pub ≡ connect H used none addr server_pub)
            × (connect_as H defaults hex_encode version addr server_pub seed
                ≡ connect_as H used hex_encode none addr server_pub seed)
    connect-load setting env w addr server_pub seed =
        let (o, h) = load-Sets w in
        (
          o,
          h,
          rw (load-version setting env w o h)
              (forced (in_force o setting env) addr server_pub seed),
        )
