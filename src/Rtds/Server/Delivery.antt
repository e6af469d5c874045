-- ===== src/Rtds/Server/Delivery.antt =====
-- What the sidecars hold after each operation of the server.
use shedpilot.Common.{
  String, subst, inc, ◌∙◌, ap, ◌≡◌, refl, Bool, true, false, Option, none, some, List, [], ◌∷◌, ℕ,
  ℤ, arith, eq_iff, Bool-cases, inl, inr, ◌==◌, nat_eq, if◌then◌else◌, any, ◌&&◌, ◌⊎◌, nat_eq_iff,
}
use shedpilot.Common.Dict.{Dict, lookup, insert, lookup-insert}
use shedpilot.Rtds.Server.{
  Values, Response, Link, closed, broken, open_link, World, build_response, accept, broadcast,
  push_layer, push_to_stream,
}
use shedpilot.Rtds.Server.Keys.{UniqueKeys}

abbrev pub is_open : Link → Bool
is_open closed = false
is_open broken = false
is_open open_link = true

abbrev pub values_of : Option Response → Option Values
values_of none = none
values_of (some r) = some r.values

-- The values that the sidecar at a connection holds for a layer.
abbrev pub held : World → ℕ → String → Option Values
held w conn layer = values_of (lookup layer (w.inbox conn))

abbrev pub is_registered : ℕ → Dict ℕ → Bool
is_registered conn = any (λ entry. nat_eq entry.1 conn)

abbrev pub or_else {ℓ} : {A : Type ℓ} → Option A → Option A → Option A
or_else none o = o
or_else (some a) o = some a

Link-cases : (l : Link) → (l ≡ closed) ⊎ (l ≡ broken) ⊎ (l ≡ open_link)
Link-cases closed = inl refl
Link-cases broken = inr (inl refl)
Link-cases open_link = inr (inr refl)

lookup-broadcast :
    (link : ℕ → Link) (r : Response) (streams : Dict ℕ) (inbox : ℕ → Dict Response) (conn : ℕ)
    (layer : String)
    → lookup layer ((broadcast link r streams inbox).0 conn) ≡ (
        if (is_registered conn streams && is_open (link conn)) && (r.layer == layer)
        then some r
        else lookup layer (inbox conn))
unfolding broadcast accept
lookup-broadcast link r [] inbox conn layer = refl
lookup-broadcast link r (entry ∷ streams) inbox conn layer =
    let rec = lookup-broadcast link r streams inbox conn layer in
    let put = lookup-insert r.layer layer r ((broadcast link r streams inbox).0 conn) in
    let same = nat_eq_iff entry.1 conn in
    elim (Bool-cases (nat_eq entry.1 conn)) [
      | inl here ↦
          let at = same.0 here in
          elim (Link-cases (link entry.1)) [
            | inl e ↦ rw (e, here, broadcast) (ground (arith, rec, ap link at))
            | inr (inl e) ↦ rw (e, here, broadcast) (ground (arith, rec, ap link at))
            | inr (inr e) ↦ rw (e, here, broadcast) (ground (arith, rec, put, ap link at))
          ]
      | inr away ↦ elim (Link-cases (link entry.1)) [
        | inl e ↦ rw (e, away, broadcast) rec
        | inr (inl e) ↦ rw (e, away, broadcast) rec
        | inr (inr e) ↦ rw (e, away, broadcast) (ground (arith, rec, put, same))
      ]
    ]

pub held-after_put :
    (here : Bool) (layer other : String) (r : Response) (before : Option Response)
    → r.layer ≡ layer
    → values_of (if here && (r.layer == other) then some r else before)
      ≡ (if here && (layer == other) then some r.values else values_of before)
held-after_put here layer other r before e = rw e (ground arith)

-- A push puts its values at every registered stream that is open, whatever happens at the other
-- streams, and leaves what else the sidecars hold as it was.
pub held-push_layer :
    (decimal : ℤ → String) (layer other : String) (values : Values) (w : World) (conn : ℕ)
    → held (push_layer decimal layer values w).0 conn other ≡ (
        if (is_registered conn w.server.streams && is_open (w.link conn)) && (layer == other)
        then some values
        else held w conn other)
unfolding push_layer build_response
held-push_layer decimal layer other values w conn =
    let s = record w.server {
      current = insert layer values w.server.current;
      version = inc 63 w.server.version;
    } in
    let r = build_response decimal s layer values in
    ap values_of (lookup-broadcast w.link r s.streams w.inbox conn other)
    ∙ held-after_put (is_registered conn s.streams && is_open (w.link conn)) layer other r
        (lookup other (w.inbox conn)) refl

-- The nodes of the registered streams on which a send fails.
abbrev pub broken_nodes : (ℕ → Link) → Dict ℕ → List String
broken_nodes link [] = []
broken_nodes link (entry ∷ streams) = elim (link entry.1) [
  | broken ↦ entry.0 ∷ broken_nodes link streams
  | _ ↦ broken_nodes link streams
]

errors-broadcast :
    (link : ℕ → Link) (r : Response) (streams : Dict ℕ) (inbox : ℕ → Dict Response)
    → (broadcast link r streams inbox).1 ≡ broken_nodes link streams
unfolding broadcast
errors-broadcast link r [] inbox = refl
errors-broadcast link r (entry ∷ streams) inbox =
    let rec = errors-broadcast link r streams inbox in
    elim (Link-cases (link entry.1)) [
      | inl e ↦ rw (e, broadcast, broken_nodes) rec
      | inr (inl e) ↦ rw (e, broadcast, broken_nodes) (ap (λ errs. entry.0 ∷ errs) rec)
      | inr (inr e) ↦ rw (e, broadcast, broken_nodes) rec
    ]

pub errors-push_layer :
    (decimal : ℤ → String) (layer : String) (values : Values) (w : World)
    → (push_layer decimal layer values w).1 ≡ broken_nodes w.link w.server.streams
unfolding push_layer
errors-push_layer decimal layer values w = errors-broadcast w.link _ w.server.streams w.inbox

put_away :
    (decimal : ℤ → String) (to conn : ℕ) (entry : String × Values) (w : World) (layer : String)
    → values_of
        (lookup layer (accept to (build_response decimal w.server entry.0 entry.1) w.inbox conn))
      ≡ (if nat_eq conn to && (entry.0 == layer) then some entry.1 else held w conn layer)
unfolding accept build_response
put_away decimal to conn entry w layer =
    let put =
      lookup-insert entry.0 layer (build_response decimal w.server entry.0 entry.1)
        (w.inbox conn) in
    elim (Bool-cases (nat_eq conn to)) [
      | inl e ↦ rw e (
          ap values_of put ∙ held-after_put true entry.0 layer _ (lookup layer (w.inbox conn)) refl)
      | inr e ↦ rw e refl
    ]

pub merged :
    (here same : Bool) (value : Values) (later before sent : Option Values)
    → sent ≡ (if here && same then some value else before)
    → (same ≡ true → later ≡ none)
    → (if here then or_else later sent else sent)
      ≡ (if here then or_else (if same then some value else later) before else before)
merged here true value later before sent e only = rw (e, only refl) (ground arith)
merged here false value later before sent e only = rw e (ground arith)

-- The replay of a snapshot to an open stream: its sidecar holds the snapshot's values, and what it
-- held of other layers; no other sidecar is touched.
pub held-push_to_stream :
    (decimal : ℤ → String) (to conn : ℕ) (layers : Dict Values) (w : World) (layer : String)
    → w.link to ≡ open_link
    → UniqueKeys layers
    → held (push_to_stream decimal to layers w) conn layer ≡ (
        if nat_eq conn to
        then or_else (lookup layer layers) (held w conn layer)
        else held w conn layer)
unfolding push_to_stream lookup
held-push_to_stream decimal to conn [] w layer is_on u = ground arith
held-push_to_stream decimal to conn (entry ∷ layers) w layer is_on u =
    let sent = record w {
      inbox = accept to (build_response decimal w.server entry.0 entry.1) w.inbox;
    } in
    let rec = held-push_to_stream decimal to conn layers sent layer is_on u.1 in
    let put = put_away decimal to conn entry w layer in
    rw (is_on, push_to_stream)
      (rec
        ∙ merged (nat_eq conn to) (entry.0 == layer) entry.1 (lookup layer layers)
            (held w conn layer) (held sent conn layer) put
            (λ same. subst (λ k. lookup k layers ≡ none) ((eq_iff entry.0 layer).0 same) u.0))

pub server-push_to_stream :
    (decimal : ℤ → String) (to : ℕ) (layers : Dict Values) (w : World)
    → ((push_to_stream decimal to layers w).server ≡ w.server)
      × ((push_to_stream decimal to layers w).link ≡ w.link)
unfolding push_to_stream
server-push_to_stream decimal to [] w = (refl, refl)
server-push_to_stream decimal to (entry ∷ layers) w =
    let sent = record w {
      inbox = accept to (build_response decimal w.server entry.0 entry.1) w.inbox;
    } in
    let rec = server-push_to_stream decimal to layers sent in
    elim (Link-cases (w.link to)) [
      | inl e ↦ rw (e, push_to_stream) (refl, refl)
      | inr (inl e) ↦ rw (e, push_to_stream) (refl, refl)
      | inr (inr e) ↦ rw (e, push_to_stream) rec
    ]
