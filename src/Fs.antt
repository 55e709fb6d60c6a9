-- ===== src/Fs.antt =====
-- The file system and the home directory, as the crate uses them: `std::fs` and `dirs`. Errors are
-- known by their messages; `read_to_string` fails on bytes that are no UTF-8.
use sqnr.Base.{ℕ, Bool, Option, List}
use sqnr.Text.Utf8.{Text}
use sqnr.Effect.{Act}

pub record Fs : Type 1 where
  pub World : Type 0
  pub PathBuf : Type 0
  pub join : PathBuf → Text → PathBuf
  pub display : PathBuf → Text
  pub home_dir : World → Option PathBuf
  pub exists : PathBuf → World → Bool
  pub read_to_string : PathBuf → Act World Text
  pub write : PathBuf → List ℕ → Act World (Unit {0})
  pub create_dir_all : PathBuf → Act World (Unit {0})
  pub set_permissions : PathBuf → ℕ → Act World (Unit {0})
