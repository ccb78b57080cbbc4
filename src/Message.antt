-- ===== src/Message.antt =====
-- message/message.go and message/request.go: what the nodes send to one another.
-- encoding/gob (utils/encode.go), encoding/json and sha256 are not code of the repository: a
-- `Codec` stands for the first, and the digest of a request is a parameter.
use blockchain_simulator.Base.{
  ℕ, ◌≡◌, refl, sym, ap, ◌∙◌, Bytes, Option, none, some, List, [], ◌∷◌, Eq, Bool, true, false, ◌↔◌,
  nat_beq, nat_beq_iff, get_elem?,
}

pub data MessageType : Type 0 where
  msg_empty msg_init msg_node_ready msg_stop msg_inject msg_reply msg_query : MessageType
  msg_reply_query msg_propose msg_pre_prepare msg_prepare msg_commit msg_forward : MessageType
  msg_forward1 msg_forward2 msg_vote msg_qc msg_consensus_done : MessageType
  msg_request_seq msg_seq msg_input_verify_result msg_pre_inject msg_block_legal : MessageType

-- `iota`: the types are numbered in their order.
abbrev pub type_code : MessageType → ℕ
type_code msg_empty = 0
type_code msg_init = 1
type_code msg_node_ready = 2
type_code msg_stop = 3
type_code msg_inject = 4
type_code msg_reply = 5
type_code msg_query = 6
type_code msg_reply_query = 7
type_code msg_propose = 8
type_code msg_pre_prepare = 9
type_code msg_prepare = 10
type_code msg_commit = 11
type_code msg_forward = 12
type_code msg_forward1 = 13
type_code msg_forward2 = 14
type_code msg_vote = 15
type_code msg_qc = 16
type_code msg_consensus_done = 17
type_code msg_request_seq = 18
type_code msg_seq = 19
type_code msg_input_verify_result = 20
type_code msg_pre_inject = 21
type_code msg_block_legal = 22

abbrev pub all_types : List MessageType
all_types =
    msg_empty ∷ msg_init ∷ msg_node_ready ∷ msg_stop ∷ msg_inject ∷ msg_reply ∷ msg_query
    ∷ msg_reply_query ∷ msg_propose ∷ msg_pre_prepare ∷ msg_prepare ∷ msg_commit ∷ msg_forward
    ∷ msg_forward1 ∷ msg_forward2 ∷ msg_vote ∷ msg_qc ∷ msg_consensus_done ∷ msg_request_seq
    ∷ msg_seq ∷ msg_input_verify_result ∷ msg_pre_inject ∷ msg_block_legal ∷ []

type_of_code : ℕ → MessageType
type_of_code n = elim (get_elem? all_types n) [ none ↦ msg_empty | some t ↦ t ]

-- Every type stands at its number in the list of all types.
pub all_types-at : (t : MessageType) → get_elem? all_types (type_code t) ≡ some t
all_types-at msg_empty = refl
all_types-at msg_init = refl
all_types-at msg_node_ready = refl
all_types-at msg_stop = refl
all_types-at msg_inject = refl
all_types-at msg_reply = refl
all_types-at msg_query = refl
all_types-at msg_reply_query = refl
all_types-at msg_propose = refl
all_types-at msg_pre_prepare = refl
all_types-at msg_prepare = refl
all_types-at msg_commit = refl
all_types-at msg_forward = refl
all_types-at msg_forward1 = refl
all_types-at msg_forward2 = refl
all_types-at msg_vote = refl
all_types-at msg_qc = refl
all_types-at msg_consensus_done = refl
all_types-at msg_request_seq = refl
all_types-at msg_seq = refl
all_types-at msg_input_verify_result = refl
all_types-at msg_pre_inject = refl
all_types-at msg_block_legal = refl

type_of_code-type_code : (t : MessageType) → type_of_code (type_code t) ≡ t
unfolding type_of_code
type_of_code-type_code t = rw (all_types-at t, type_of_code) refl

pub type_code_iff : (a b : MessageType) → (nat_beq (type_code a) (type_code b) ≡ true) ↔ (a ≡ b)
type_code_iff a b = (
  (λ same.
      sym (type_of_code-type_code a)
      ∙ ap type_of_code ((nat_beq_iff (type_code a) (type_code b)).0 same)
      ∙ type_of_code-type_code b),
  (λ is. (nat_beq_iff (type_code a) (type_code b)).1 (ap type_code is)),
)

instance abbrev pub MessageType-eq : Eq MessageType
MessageType-eq = record {
  beq = λ a b. nat_beq (type_code a) (type_code b);
  beq_iff = type_code_iff;
}

pub record Message : Type 0 where
  pub msg_type : MessageType
  pub content : Bytes

pub data RequestType : Type 0 where
  req_empty req_verify_string req_verify_block req_verify_block_header : RequestType
  req_verify_txs req_verify_inputs : RequestType

-- `S` is the type of signatures, `bls.Sign`. Times are nanoseconds, 0 the zero time.
pub record Request (S : Type 0) : Type 0 where
  pub shard_id : ℕ
  pub req_type : RequestType
  pub content : Bytes
  pub req_time : ℕ
  pub digest : Bytes
  pub sig : Option S

-- `utils.Encode` and `utils.Decode` at one type: what was encoded decodes to itself.
pub record Codec (A : Type 0) : Type 0 where
  pub encode : A → Bytes
  pub decode : Bytes → Option A
  pub decode-encode : (a : A) → decode (encode a) ≡ some a

-- gob panics at a nil pointer that is an element of a slice: `Encode` of a list of signatures works
-- if there is none.
unfoldable pub no_nil : {A : Type 0} → List (Option A) → Bool
no_nil [] = true
no_nil (none ∷ xs) = false
no_nil (some x ∷ xs) = no_nil xs

module _ {S : Type 0} (sum256 : Request S → Bytes) where
  -- The digest is cleared before the request is hashed.
  unfoldable pub cal_digest : Request S → Request S
  cal_digest req =
      let cleared = record req { digest = [] } in record req { digest = sum256 cleared }

  unfoldable pub new_request_with_signature : ℕ → RequestType → Bytes → Option S → ℕ → Request S
  unfolding cal_digest
  new_request_with_signature shard_id req_type content sig now = cal_digest (record {
    shard_id = shard_id;
    req_type = req_type;
    content = content;
    req_time = now;
    digest = [];
    sig = sig;
  })

  unfoldable pub new_request : ℕ → RequestType → Bytes → ℕ → Request S
  unfolding new_request_with_signature
  new_request shard_id req_type content now =
      new_request_with_signature shard_id req_type content none now

  -- The digest of a request does not depend on the digest that it carries: computing it again,
  -- or over a request that carries any other digest, changes nothing.
  pub cal_digest-stable :
      (req : Request S) (d : Bytes) → cal_digest (record req { digest = d }) ≡ cal_digest req
  unfolding cal_digest
  cal_digest-stable req d = refl
