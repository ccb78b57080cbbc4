-- ===== src/Start/Routes.antt =====
-- Which module handles a message on a node that main started.
use mathlib.Core.Path.{subst}
use mathlib.Core.Option.{some-injective}
use blockchain_simulator.Base.{
  ℕ, ◌≡◌, refl, sym, ap, ◌∙◌, Bool, true, false, ◌&&◌, ◌⊎◌, inl, inr, List, [], ◌∷◌, Option, none,
  some, zero, suc, lookup, insert, lookup-insert, count, leb, ◌==◌, if◌then◌else◌, ◌>>=◌, arith,
  get_elem?, Bool-cases, Option-cases,
}
use blockchain_simulator.Message.{
  MessageType, MessageType-eq, type_code_iff, all_types, all_types-at, type_code, msg_stop,
}
use blockchain_simulator.Utils.Set.{elem}
use blockchain_simulator.Start.{
  ModName, Method, Role, ProtocolMods, node_stops, module_of, HandlerMap, predefined_protocol_mods,
  registered_types, new_mods, new_node, register_all, register_mods, mods_of, run, start,
  handler_of, new_running_mod, has_addon, test, simple, classic_pbft, tbd_protocol, tbb_protocol,
  dolev_strong, monoxide, client, view_node, other_node,
}

abbrev pub claims : MessageType → ModName → Bool
claims t m = elem t (registered_types m)

abbrev pub mods_for : Role → Option ProtocolMods → List ModName
mods_for role none = []
mods_for role (some p) = mods_of role p

-- The modules of a node; none for a name that has no protocol.
abbrev pub chosen : Method → Role → List ModName
chosen method role = mods_for role (predefined_protocol_mods method)

abbrev pub Among : ModName → List ModName → Type 0
Among m [] = ⊥
Among m (x ∷ xs) = (x ≡ m) ⊎ Among m xs

register_all-lookup :
    (m : ModName) (ts : List MessageType) (h : HandlerMap) (t : MessageType)
    → lookup t (register_all m ts h) ≡ (if elem t ts then some (module_of m) else lookup t h)
unfolding register_all elem
register_all-lookup m [] h t = refl
register_all-lookup m (x ∷ xs) h t = ground (
  arith,
  register_all-lookup m xs (insert x (module_of m) h) t,
  lookup-insert x t (module_of m) h,
)

-- What no module registers stays; what one registers is its own.
register_mods-none :
    (ms : List ModName) (h : HandlerMap) (t : MessageType)
    → count (claims t) ms ≡ 0
    → lookup t (register_mods ms h) ≡ lookup t h
unfolding register_mods
register_mods-none [] h t none_claims = refl
register_mods-none (m ∷ ms) h t none_claims =
    let h' = register_all m (registered_types m) h in
    ground (arith, register_mods-none ms h' t, register_all-lookup m (registered_types m) h t)

register_mods-one :
    (ms : List ModName) (h : HandlerMap) (t : MessageType) (m : ModName)
    → Among m ms
    → claims t m ≡ true
    → leb (count (claims t) ms) 1 ≡ true
    → lookup t (register_mods ms h) ≡ some (module_of m)
unfolding register_mods
register_mods-one [] h t m among mine once = ground (arith, among)
register_mods-one (x ∷ ms) h t m (inl is) mine once =
    let h' = register_all x (registered_types x) h in
    let mine' : claims t x ≡ true = subst (λ y. claims t y ≡ true) (sym is) mine in
    let alone : count (claims t) ms ≡ 0 = ground (arith, once, mine') in
    let kept = register_mods-none ms h' t alone in
    let own = register_all-lookup x (registered_types x) h t in
    let got : lookup t (register_mods ms h') ≡ some (module_of x) =
      ground (arith, kept, own, mine') in
    got ∙ ap (λ y. some (module_of y)) is
register_mods-one (x ∷ ms) h t m (inr later) mine once =
    let h' = register_all x (registered_types x) h in
    register_mods-one ms h' t m later mine (ground (arith, once))

stop_unclaimed : (m : ModName) → claims msg_stop m ≡ false
unfolding registered_types elem
stop_unclaimed m = ground arith

-- The nodes that main can start.
abbrev pub can_start : Method → Role → Bool
can_start monoxide role = false
can_start classic_pbft client = true
can_start classic_pbft view_node = false
can_start classic_pbft other_node = false
can_start method role = true

abbrev all_claimed_once : List ModName → List MessageType → Bool
all_claimed_once ms [] = true
all_claimed_once ms (t ∷ ts) = leb (count (claims t) ms) 1 && all_claimed_once ms ts

-- In the table of protocols no node has two modules that register one type, and every module of a
-- node can be made.
predefined-made :
    (method : Method) (role : Role)
    → (all_claimed_once (chosen method role) all_types ≡ true)
      × (can_start method role ≡ true
          → new_mods method (chosen method role) ≡ some (chosen method role))
unfolding predefined_protocol_mods mods_of registered_types elem new_mods new_running_mod has_addon
predefined-made test client = (refl, λ _. refl)
predefined-made test view_node = (refl, λ _. refl)
predefined-made test other_node = (refl, λ _. refl)
predefined-made simple client = (refl, λ _. refl)
predefined-made simple view_node = (refl, λ _. refl)
predefined-made simple other_node = (refl, λ _. refl)
predefined-made classic_pbft client = (refl, λ _. refl)
predefined-made classic_pbft view_node = (refl, λ h. absurd (ground (arith, h)))
predefined-made classic_pbft other_node = (refl, λ h. absurd (ground (arith, h)))
predefined-made tbd_protocol client = (refl, λ _. refl)
predefined-made tbd_protocol view_node = (refl, λ _. refl)
predefined-made tbd_protocol other_node = (refl, λ _. refl)
predefined-made tbb_protocol client = (refl, λ _. refl)
predefined-made tbb_protocol view_node = (refl, λ _. refl)
predefined-made tbb_protocol other_node = (refl, λ _. refl)
predefined-made dolev_strong client = (refl, λ _. refl)
predefined-made dolev_strong view_node = (refl, λ _. refl)
predefined-made dolev_strong other_node = (refl, λ _. refl)
predefined-made monoxide client = (refl, λ h. absurd (ground (arith, h)))
predefined-made monoxide view_node = (refl, λ h. absurd (ground (arith, h)))
predefined-made monoxide other_node = (refl, λ h. absurd (ground (arith, h)))

claimed_once-at :
    (ms : List ModName) (ts : List MessageType) (i : ℕ) (t : MessageType)
    → all_claimed_once ms ts ≡ true
    → get_elem? ts i ≡ some t
    → leb (count (claims t) ms) 1 ≡ true
claimed_once-at ms [] i t once is = absurd (ground (arith, is))
claimed_once-at ms (x ∷ ts) zero t once is =
    subst (λ y. leb (count (claims y) ms) 1 ≡ true) (some-injective x t is) (ground (arith, once))
claimed_once-at ms (x ∷ ts) (suc i) t once is = claimed_once-at ms ts i t (ground (arith, once)) is

start-chosen :
    (method : Method) (role : Role) (p : ProtocolMods)
    → predefined_protocol_mods method ≡ some p
    → can_start method role ≡ true
    → start method role ≡ some (run (register_mods (chosen method role) []))
unfolding start new_node
start-chosen method role p e able =
    let same : chosen method role ≡ mods_of role p = ap (mods_for role) e in
    let made : new_mods method (mods_of role p) ≡ some (mods_of role p) =
      subst (λ ms. new_mods method ms ≡ some ms) same ((predefined-made method role).1 able) in
    rw (e, start) (rw (made, new_node) refl)

-- On every node that main can start for a protocol of the table, a message whose type one of the
-- node's modules registers is handled by that module: no other module takes its place.
pub handler_of_lem :
    (method : Method) (role : Role) (m : ModName) (t : MessageType)
    → can_start method role ≡ true
    → Among m (chosen method role)
    → claims t m ≡ true
    → handler_of method role t ≡ some (module_of m)
unfolding handler_of run
handler_of_lem method role m t able among mine =
    elim (Option-cases (predefined_protocol_mods method)) [
      | inl e ↦ absurd (subst (Among m) (ap (mods_for role) e) among)
      | inr (p, e) ↦
          let made = (predefined-made method role).0 in
          let once =
            claimed_once-at (chosen method role) all_types (type_code t) t made (all_types-at t) in
          let handlers = register_mods (chosen method role) [] in
          let got : lookup t handlers ≡ some (module_of m) =
            register_mods-one (chosen method role) [] t m among mine once in
          let other = stop_unclaimed m in
          let kept = lookup-insert msg_stop t node_stops handlers in
          let last : lookup t (run handlers) ≡ some (module_of m) =
            elim (Bool-cases (msg_stop == t)) [
              | inl stop ↦
                  let is : msg_stop ≡ t = (type_code_iff msg_stop t).0 stop in
                  let mine' : claims msg_stop m ≡ true =
                    subst (λ x. claims x m ≡ true) (sym is) mine in
                  absurd (ground (arith, other, mine'))
              | inr keeps ↦ kept ∙ (rw keeps got)
            ] in
          ap (λ o. o >>= lookup t) (start-chosen method role p e able) ∙ last
    ]

-- main starts a node of every role for every protocol of the table but one: with ClassicPBFT, for
-- which there is no addon, only the client starts. For a method that is not in the table it starts
-- none.
pub start-can_start :
    (method : Method) (role : Role)
    → elim (start method role) [ none ↦ false | some _ ↦ true ] ≡ can_start method role
unfolding start new_node new_mods new_running_mod has_addon predefined_protocol_mods mods_of
start-can_start test client = refl
start-can_start test view_node = refl
start-can_start test other_node = refl
start-can_start simple client = refl
start-can_start simple view_node = refl
start-can_start simple other_node = refl
start-can_start classic_pbft client = refl
start-can_start classic_pbft view_node = refl
start-can_start classic_pbft other_node = refl
start-can_start tbd_protocol client = refl
start-can_start tbd_protocol view_node = refl
start-can_start tbd_protocol other_node = refl
start-can_start tbb_protocol client = refl
start-can_start tbb_protocol view_node = refl
start-can_start tbb_protocol other_node = refl
start-can_start dolev_strong client = refl
start-can_start dolev_strong view_node = refl
start-can_start dolev_strong other_node = refl
start-can_start monoxide client = refl
start-can_start monoxide view_node = refl
start-can_start monoxide other_node = refl
