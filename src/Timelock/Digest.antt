-- ===== src/Timelock/Digest.antt =====
-- The preimage that `queue` of contracts/router-timelock/src/lib.rs hashes ends in the eight bytes of the
-- eta, so a digest without collisions tells operations with different etas apart.
use stellar_router.Prelude.{ℕ, ◌++◌, List, ◌≡◌, ◌∙◌, sym}
use stellar_router.Prelude.Words.{to_be_bytes}
use stellar_router.Prelude.Bytes.{to_be_bytes-injective, length-to_be_bytes, append-suffix}
use mathlib.Core.List.{append_assoc}
use stellar_router.Common.{Crypto}
use stellar_router.Timelock.Calls.{derive_op_id}
use stellar_router.Timelock.Once.{SeparatesEta}

-- The hash has no collisions, as SHA-256 is taken to have.
abbrev pub IsCollisionFree : Crypto → Type 0
IsCollisionFree crypto = (xs ys : List ℕ) → crypto.sha256 xs ≡ crypto.sha256 ys → xs ≡ ys

pub IsCollisionFree-SeparatesEta : (crypto : Crypto) → IsCollisionFree crypto → SeparatesEta crypto
unfolding derive_op_id
IsCollisionFree-SeparatesEta crypto free text text' target target' eta eta' p q e =
    to_be_bytes-injective eta eta' p q (
      append-suffix (x text ++ a target) (x text' ++ a target') (to_be_bytes eta) (to_be_bytes eta')
        (length-to_be_bytes eta ∙ sym (length-to_be_bytes eta'))
        (append_assoc (x text) (a target) (to_be_bytes eta)
          ∙ (free (x text ++ (a target ++ to_be_bytes eta))
                (x text' ++ (a target' ++ to_be_bytes eta')) e
              ∙ sym (append_assoc (x text') (a target') (to_be_bytes eta')))))
  where
    open crypto use {string_xdr as x, address_xdr as a}
