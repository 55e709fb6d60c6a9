-- ===== src/Signer.antt =====
-- crates/sqnr/src/signer.rs: one seam over a software identity and a YubiKey.
pub mod Size
use sqnr.Base.{ℕ, Bool, true, false, List, ok}
use sqnr.Core.Key.{PubKey}
use sqnr.Core.Signed.{Crypto, software_signer}
use sqnr.Effect.{Act}
use sqnr.Card.{Device, Thread}
use sqnr.Card.Methods.{sign as card_sign}

module _ (C : Crypto) where
  -- A YubiKey is a handle to the one card thread, which is part of the world.
  pub data Inner : Type 0 where
    soft : C.SigningKey → Inner
    yubi : Inner

  pub record Backend : Type 0 where
    pub public : PubKey
    pub inner : Inner

  unfoldable pub software : C.SigningKey → Backend
  unfolding software_signer
  software k = record { public = record { raw = (software_signer C k).public }; inner = soft k }

  unfoldable pub yubikey : PubKey → Backend
  yubikey public = record { public = public; inner = yubi }

  inner_is_yubikey : Inner → Bool
  inner_is_yubikey (soft k) = false
  inner_is_yubikey yubi = true

  unfoldable pub is_yubikey : Backend → Bool
  unfolding inner_is_yubikey
  is_yubikey b = inner_is_yubikey b.inner

  module _ (D : Device) where
    unfoldable pub inner_sign : Inner → List ℕ → Act (Thread D) (List ℕ)
    unfolding software_signer
    inner_sign (soft k) msg t = (ok ((software_signer C k).sign msg), t)
    inner_sign yubi msg t = card_sign D msg t

    unfoldable pub sign : Backend → List ℕ → Act (Thread D) (List ℕ)
    unfolding inner_sign
    sign b msg = inner_sign b.inner msg
