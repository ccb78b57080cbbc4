-- ===== src/Client/Manual.antt =====
-- clientMod/sendStringManual.go: the commands that a user types. strings.TrimSpace and
-- strings.ToLower are parameters; SplitN cuts at the first space. The texts that are printed are
-- left out. `inputRoutine` puts the lines into a channel and closes it at the end of the input; a
-- receive from a closed channel gives the empty text at once.
use blockchain_simulator.Base.{
  ℕ, zero, suc, ◌+◌, ◌≡◌, refl, ap, ◌∙◌, false, List, [], ◌∷◌, ◌++◌, Option, none, some, Bytes,
  ◌==◌, bytes_eq, nat_beq, if◌then◌else◌, length, map, arith, All,
}
use blockchain_simulator.Message.{Message, Codec, msg_inject}
use blockchain_simulator.P2p.{Effect, sends}

-- What a command does: one message to the first node, the usage, the note that the command is not
-- known, or an error that processInput drops.
pub data Answer (Addr : Type 0) : Type 0 where
  injects : Effect Addr → Answer Addr
  usage unknown dropped : Answer Addr

pub record ManualEnv (Addr : Type 0) : Type 0 where
  pub trim_space : Bytes → Bytes
  pub to_lower : Bytes → Bytes
  pub view_ip : Addr
  pub text_codec : Codec Bytes

-- `propose` and `help`.
abbrev pub cmd_propose : Bytes
cmd_propose = 112 ∷ 114 ∷ 111 ∷ 112 ∷ 111 ∷ 115 ∷ 101 ∷ []

abbrev pub cmd_help : Bytes
cmd_help = 104 ∷ 101 ∷ 108 ∷ 112 ∷ []

-- SplitN with a space and 2: one part, or two.
unfoldable pub split_n : Bytes → Bytes × Option Bytes
split_n [] = ([], none)
split_n (b ∷ bs) =
    let rest = split_n bs in if nat_beq b 32 then ([], some bs) else (b ∷ rest.0, rest.1)

abbrev pub unknown_answers : {Addr : Type 0} → ℕ → List (Answer Addr)
unknown_answers zero = []
unknown_answers (suc n) = unknown ∷ unknown_answers n

module _ {Addr : Type 0} (env : ManualEnv Addr) where
  unfoldable pub handle_cmd_propose : Option Bytes → Answer Addr
  handle_cmd_propose none = dropped
  handle_cmd_propose (some []) = dropped
  handle_cmd_propose (some (b ∷ bs)) = injects (
      sends env.view_ip
        (record { msg_type = msg_inject; content = env.text_codec.encode (b ∷ bs) }))

  unfoldable pub process_input : Bytes → Answer Addr
  unfolding handle_cmd_propose split_n
  process_input input =
      let (first, second) = split_n input in
      let cmd = env.to_lower first in
      if cmd == cmd_propose
      then handle_cmd_propose second
      else if cmd == cmd_help
      then usage
      else unknown

  -- The lines that go into the channel.
  unfoldable pub input_routine : List Bytes → List Bytes
  input_routine [] = []
  input_routine (line ∷ lines) =
      let input = env.trim_space line in
      let rest = input_routine lines in if input == [] then rest else input ∷ rest

  -- The turns of Run's loop, as long as its context lives.
  unfoldable pub run : (turns : ℕ) → (inputs : List Bytes) → List (Answer Addr)
  run zero inputs = []
  run (suc n) [] = process_input [] ∷ run n []
  run (suc n) (input ∷ inputs) = process_input input ∷ run n inputs

  split_n-space :
      (cmd text : Bytes)
      → All (λ b. nat_beq b 32 ≡ false) cmd
      → split_n (cmd ++ (32 ∷ text)) ≡ (cmd, some text)
  unfolding split_n
  split_n-space [] text plain = refl
  split_n-space (b ∷ bs) text (other, plain) = rw other (rw (split_n-space bs text plain) refl)

  -- A command word that goes to `propose` in small letters, a space and a text that is not empty:
  -- the text, spaces and all, goes to the first node as it stands, and decodes to itself there.
  pub process_input-propose :
      (cmd : Bytes) (b : ℕ) (bs : Bytes)
      → All (λ c. nat_beq c 32 ≡ false) cmd
      → env.to_lower cmd ≡ cmd_propose
      → (m : Message) × (process_input (cmd ++ (32 ∷ b ∷ bs)) ≡ injects (sends env.view_ip m))
        × (env.text_codec.decode m.content ≡ some (b ∷ bs))
  unfolding process_input handle_cmd_propose
  process_input-propose cmd b bs plain lower = (
    record { msg_type = msg_inject; content = env.text_codec.encode (b ∷ bs) },
    rw (split_n-space cmd (b ∷ bs) plain, process_input) (rw lower refl),
    env.text_codec.decode-encode (b ∷ bs),
  )

  empty_unknown : env.to_lower [] ≡ [] → process_input [] ≡ unknown
  unfolding process_input split_n
  empty_unknown lower = rw lower refl

  run-nil : (n : ℕ) → env.to_lower [] ≡ [] → run n [] ≡ unknown_answers n
  unfolding run
  run-nil zero lower = refl
  run-nil (suc n) lower =
      ap (λ a. a ∷ run n []) (empty_unknown lower) ∙ ap (λ l. unknown ∷ l) (run-nil n lower)

  -- Behind the end of the input the loop does not stop: if the empty text is no command in small
  -- letters, each further turn says at once that the command is not known.
  pub run-closed :
      (inputs : List Bytes) (n : ℕ)
      → env.to_lower [] ≡ []
      → run (length inputs + n) inputs ≡ map process_input inputs ++ unknown_answers n
  unfolding run
  run-closed [] n lower =
      let none_left : length {A = Bytes} [] + n ≡ n = omega arith in
      ap (λ k. run k []) none_left ∙ run-nil n lower
  run-closed (input ∷ inputs) n lower =
      let one_more : length (input ∷ inputs) + n ≡ suc (length inputs + n) = omega arith in
      ap (λ k. run k (input ∷ inputs)) one_more
      ∙ ap (λ l. process_input input ∷ l) (run-closed inputs n lower)
