-- ===== src/Tests/Codecs.antt =====
-- Codecs for tests, in place of encoding/gob: lengths stand before what they measure.
use blockchain_simulator.Base.{
  ℕ, zero, suc, ◌≡◌, refl, ap, List, [], ◌∷◌, ◌++◌, length, take, drop, Option, none, some, Bytes,
}
use blockchain_simulator.Base.Int.{ℤ, pos, negsuc}
use blockchain_simulator.Message.{
  Codec, Request, RequestType, req_empty, req_verify_string, req_verify_block,
  req_verify_block_header, req_verify_txs, req_verify_inputs,
}
use blockchain_simulator.Pbft.Defs.{PbftMessage}
use blockchain_simulator.Ds.Defs.{SigListContent as DsContent}
use blockchain_simulator.Tbb.Bb.Defs.{VoteContent, QcContent, SigListContent as BbContent}

pub take-append : {A : Type 0} (xs ys : List A) → take (length xs) (xs ++ ys) ≡ xs
take-append [] ys = refl
take-append (x ∷ xs) ys = ap (λ l. x ∷ l) (take-append xs ys)

pub drop-append : {A : Type 0} (xs ys : List A) → drop (length xs) (xs ++ ys) ≡ ys
drop-append [] ys = refl
drop-append (x ∷ xs) ys = drop-append xs ys

abbrev pub nat_codec : Codec ℕ
nat_codec = record {
  encode = λ n. n ∷ [];
  decode = λ l. elim l [ [] ↦ none | n ∷ _ ↦ some n ];
  decode-encode = λ n. refl;
}

abbrev pub bytes_codec : Codec Bytes
bytes_codec = record { encode = λ b. b; decode = λ b. some b; decode-encode = λ b. refl }

abbrev pub both_of : {A B : Type 0} → Option A → Option B → Option (A × B)
both_of none b = none
both_of (some a) none = none
both_of (some a) (some b) = some (a, b)

module _ {A B : Type 0} (a : Codec A) (b : Codec B) where
  abbrev pair_encode : A × B → Bytes
  pair_encode (x, y) = length (a.encode x) ∷ (a.encode x ++ b.encode y)

  abbrev pair_decode : Bytes → Option (A × B)
  pair_decode [] = none
  pair_decode (n ∷ l) = both_of (a.decode (take n l)) (b.decode (drop n l))

  pub pair_ok : (p : A × B) → pair_decode (pair_encode p) ≡ some p
  pair_ok (x, y) = rw (take-append (a.encode x) (b.encode y)) (
      rw (drop-append (a.encode x) (b.encode y))
        (rw (a.decode-encode x) (rw (b.decode-encode y) refl)))

  abbrev pub pair_codec : Codec (A × B)
  pair_codec = record { encode = pair_encode; decode = pair_decode; decode-encode = pair_ok }

abbrev pub map_some : {A B : Type 0} → (A → B) → Option A → Option B
map_some f none = none
map_some f (some a) = some (f a)

-- A type that is a part of another one.
abbrev pub part_codec :
    {A B : Type 0} → Codec B → (f : A → B) (g : B → A) → ((x : A) → g (f x) ≡ x) → Codec A
part_codec c f g h = record {
  encode = λ x. c.encode (f x);
  decode = λ l. map_some g (c.decode l);
  decode-encode = λ x. rw (c.decode-encode (f x)) (ap some (h x));
}

-- Lists of numbers stand for options, signed integers and lists of them.
abbrev option_code : Option ℕ → ℕ
option_code none = 0
option_code (some n) = suc n

abbrev option_of : ℕ → Option ℕ
option_of zero = none
option_of (suc n) = some n

pub option_of_code : (o : Option ℕ) → option_of (option_code o) ≡ o
option_of_code none = refl
option_of_code (some n) = refl

abbrev map_all : {A B : Type 0} → (A → B) → List A → List B
map_all f [] = []
map_all f (x ∷ xs) = f x ∷ map_all f xs

pub map_back :
    {A B : Type 0} (f : A → B) (g : B → A)
    → ((a : A) → g (f a) ≡ a)
    → (xs : List A) → map_all g (map_all f xs) ≡ xs
map_back f g h [] = refl
map_back f g h (x ∷ xs) = rw (h x) (ap (λ l. x ∷ l) (map_back f g h xs))

abbrev options_codec : Codec (List (Option ℕ))
options_codec =
    part_codec bytes_codec (map_all option_code) (map_all option_of)
      (map_back option_code option_of option_of_code)

abbrev pub int_code : ℤ → ℕ × ℕ
int_code (pos n) = (0, n)
int_code (negsuc n) = (1, n)

abbrev pub int_of : ℕ → ℕ → ℤ
int_of zero n = pos n
int_of (suc m) n = negsuc n

abbrev ints_code : List ℤ → Bytes
ints_code [] = []
ints_code (i ∷ is) = (int_code i).0 ∷ (int_code i).1 ∷ ints_code is

abbrev ints_of : Bytes → List ℤ
ints_of [] = []
ints_of (m ∷ []) = []
ints_of (m ∷ n ∷ l) = int_of m n ∷ ints_of l

pub ints_back : (is : List ℤ) → ints_of (ints_code is) ≡ is
ints_back [] = refl
ints_back (pos n ∷ is) = ap (λ l. pos n ∷ l) (ints_back is)
ints_back (negsuc n ∷ is) = ap (λ l. negsuc n ∷ l) (ints_back is)

abbrev ints_codec : Codec (List ℤ)
ints_codec = part_codec bytes_codec ints_code ints_of ints_back

abbrev type_code : RequestType → ℕ
type_code req_empty = 0
type_code req_verify_string = 1
type_code req_verify_block = 2
type_code req_verify_block_header = 3
type_code req_verify_txs = 4
type_code req_verify_inputs = 5

abbrev type_of : ℕ → RequestType
type_of zero = req_empty
type_of (suc zero) = req_verify_string
type_of (suc (suc zero)) = req_verify_block
type_of (suc (suc (suc zero))) = req_verify_block_header
type_of (suc (suc (suc (suc zero)))) = req_verify_txs
type_of (suc (suc (suc (suc (suc n))))) = req_verify_inputs

pub type_back : (t : RequestType) → type_of (type_code t) ≡ t
type_back req_empty = refl
type_back req_verify_string = refl
type_back req_verify_block = refl
type_back req_verify_block_header = refl
type_back req_verify_txs = refl
type_back req_verify_inputs = refl

abbrev request_numbers : Request ℕ → Bytes
request_numbers r = r.shard_id ∷ type_code r.req_type ∷ r.req_time ∷ option_code r.sig ∷ []

abbrev request_of : Bytes → Bytes → Bytes → Request ℕ
request_of (shard ∷ t ∷ time ∷ sig ∷ _) content digest = record {
  shard_id = shard;
  req_type = type_of t;
  content = content;
  req_time = time;
  digest = digest;
  sig = option_of sig;
}
request_of _ content digest = record {
  shard_id = 0;
  req_type = req_empty;
  content = content;
  req_time = 0;
  digest = digest;
  sig = none;
}

-- The numbers of a request in front, then its content and its digest.
abbrev pub request_codec : Codec (Request ℕ)
request_codec =
    part_codec (pair_codec bytes_codec (pair_codec bytes_codec bytes_codec))
      (λ r. (request_numbers r, (r.content, r.digest))) (λ p. request_of p.0 p.1.0 p.1.1)
      (λ r. rw (type_back r.req_type) (rw (option_of_code r.sig) refl))

abbrev pub pbft_codec : Codec (PbftMessage ℕ)
pbft_codec =
    part_codec (pair_codec nat_codec request_codec) (λ m. (m.round, m.request))
      (λ p. record { request = p.1; round = p.0 }) (λ m. refl)

abbrev pub ds_codec : Codec (DsContent ℕ)
ds_codec =
    part_codec (pair_codec request_codec (pair_codec options_codec bytes_codec))
      (λ c. (c.req, (c.sig_list, c.node_list)))
      (λ p. record { req = p.0; sig_list = p.1.0; node_list = p.1.1 }) (λ c. refl)

abbrev pub vote_codec : Codec (VoteContent ℕ)
vote_codec =
    part_codec (pair_codec (pair_codec nat_codec nat_codec) bytes_codec)
      (λ v. ((v.node_id, option_code v.sig), v.content))
      (λ p. record { node_id = p.0.0; content = p.1; sig = option_of p.0.1 })
      (λ v. rw (option_of_code v.sig) refl)

abbrev pub qc_codec : Codec (QcContent ℕ)
qc_codec =
    part_codec (pair_codec nat_codec bytes_codec) (λ c. (option_code c.sig, c.content))
      (λ p. record { content = p.1; sig = option_of p.0 }) (λ c. rw (option_of_code c.sig) refl)

abbrev pub bb_codec : Codec (BbContent ℕ)
bb_codec =
    part_codec (pair_codec bytes_codec (pair_codec options_codec ints_codec))
      (λ c. (c.input, (c.sig_list, c.node_list)))
      (λ p. record { input = p.0; sig_list = p.1.0; node_list = p.1.1 }) (λ c. refl)
