-- ===== src/Signature.antt =====
-- signature/signature.go. The BLS library and sha256 are not code of the repository: `Bls` is what
-- the file calls of them, with what they promise of honest signatures. A pointer is an option.
use blockchain_simulator.Base.{
  ℕ, ◌≡◌, refl, Bool, true, false, List, [], ◌∷◌, map, Option, none, some, Bytes, ◌>>=◌,
}
use blockchain_simulator.Tbb.Bb.Defs.{aggregate_signatures as bb_aggregate}

-- As many copies of a hash as there are keys.
abbrev pub copies : {A : Type 0} → Bytes → List A → List Bytes
copies h [] = []
copies h (x ∷ xs) = h ∷ copies h xs

pub record Bls (Sec Pub Sig : Type 0) : Type 0 where
  pub get_public_key : Sec → Pub
  pub sign_hash : Sec → Bytes → Sig
  pub verify_hash : Sig → Pub → Bytes → Bool
  pub aggregate : List Sig → Sig
  pub verify_aggregate_hashes : Sig → List Pub → List Bytes → Bool
  pub sum256 : Bytes → Bytes
  pub verify_hash-sign_hash :
      (key : Sec) (h : Bytes) → verify_hash (sign_hash key h) (get_public_key key) h ≡ true

-- All the values, if there is no nil among them.
abbrev pub all_there : {A : Type 0} → List (Option A) → Option (List A)
all_there [] = some []
all_there (none ∷ xs) = none
all_there (some x ∷ xs) = all_there xs >>= λ rest. some (x ∷ rest)

all_there-some : {A : Type 0} (xs : List A) → all_there (map (λ x. some x) xs) ≡ some xs
all_there-some [] = refl
all_there-some (x ∷ xs) = rw (all_there-some xs) refl

module _ {Sec Pub Sig : Type 0} (bls : Bls Sec Pub Sig) where
  -- An empty message or a missing key gives no signature.
  unfoldable pub sign : Option Sec → Bytes → Option Sig
  sign key [] = none
  sign none (b ∷ bs) = none
  sign (some key) (b ∷ bs) = some (bls.sign_hash key (bls.sum256 (b ∷ bs)))

  unfoldable pub verify : Option Pub → Bytes → Option Sig → Bool
  verify key [] sig = false
  verify none (b ∷ bs) sig = false
  verify (some key) (b ∷ bs) none = false
  verify (some key) (b ∷ bs) (some sig) = bls.verify_hash sig key (bls.sum256 (b ∷ bs))

  -- An error for an empty list, and for a nil signature in it.
  unfoldable pub aggregate_signatures : List (Option Sig) → Option Sig
  aggregate_signatures [] = none
  aggregate_signatures (sig ∷ sigs) = all_there (sig ∷ sigs) >>= λ given. some (bls.aggregate given)

  -- `none` is the panic at a nil signature, which is read after the keys. The message may be empty.
  unfoldable pub verify_aggregated_signature : List (Option Pub) → Bytes → Option Sig → Option Bool
  verify_aggregated_signature keys msg sig = elim (all_there keys) [
    | none ↦ some false
    | some given ↦
        sig >>= λ s. some (bls.verify_aggregate_hashes s given (copies (bls.sum256 msg) given))
  ]

  -- What Sign gives for a message that is not empty Verify accepts with the key's public key; for
  -- the empty message Sign gives nothing, and Verify accepts nothing.
  pub verify-sign :
      (key : Sec) (b : ℕ) (bs : Bytes) (sig : Option Sig)
      → (verify (some (bls.get_public_key key)) (b ∷ bs) (sign (some key) (b ∷ bs)) ≡ true)
        × (sign (some key) [] ≡ none)
        × (verify (some (bls.get_public_key key)) [] sig ≡ false)
  unfolding verify sign
  verify-sign key b bs sig = (bls.verify_hash-sign_hash key (bls.sum256 (b ∷ bs)), refl, refl)

  -- On signatures that are there, it is the aggregation that 1Δ-BB does.
  pub aggregate_signatures-there :
      (sigs : List Sig)
      → aggregate_signatures (map (λ s. some s) sigs) ≡ bb_aggregate bls.aggregate sigs
  unfolding aggregate_signatures bb_aggregate
  aggregate_signatures-there [] = refl
  aggregate_signatures-there (s ∷ sigs) = rw (all_there-some sigs) refl
