-- ===== src/Rtds/Server/Sync.antt =====
-- The runs of the server, one operation after the other, and what the sidecars hold in them.
use shedpilot.Common.{
  String, subst, ap, ◌≡◌, ◌∙◌, sym, refl, true, false, Option, some, [], ◌∷◌, ℕ, ℤ, arith,
  nat_eq_iff, Bool-cases, inl, inr, ◌==◌, nat_eq, if◌then◌else◌,
}
use shedpilot.Common.Dict.{Dict, lookup, lookup-insert, lookup-erase}
use shedpilot.Rtds.Server.{
  Values, Server, new_server, Response, Link, open_link, World, register, push_layer, connect,
  disconnect,
}
use shedpilot.Rtds.Server.Keys.{UniqueKeys, insert-UniqueKeys}
use shedpilot.Rtds.Server.Delivery.{
  held, is_registered, held-push_layer, held-push_to_stream, server-push_to_stream,
}

-- From one state to the next. A link may fail or close at any time, and a new connection is open.
pub data Step (decimal : ℤ → String) : World → World → Type 0 where
  connected :
      (node : String) (conn : ℕ) (w : World)
      → w.link conn ≡ open_link
      → Step decimal w (connect decimal node conn w)
  pushed :
      (layer : String) (values : Values) (w : World)
      → Step decimal w (push_layer decimal layer values w).0
  disconnected : (node : String) (w : World) → Step decimal w (disconnect node w)
  failed :
      (link : ℕ → Link) (w : World)
      → ((conn : ℕ) → link conn ≡ open_link → w.link conn ≡ open_link)
      → Step decimal w (record w { link = link })

pub data Run (decimal : ℤ → String) : World → Type 0 where
  started :
      (link : ℕ → Link) (inbox : ℕ → Dict Response)
      → Run decimal (record { server = new_server; link = link; inbox = inbox })
  then_step : (w next : World) → Run decimal w → Step decimal w next → Run decimal next

-- The sidecar of every registered stream that is open holds the current values of every layer.
abbrev pub InSync : World → Type 0
InSync w =
    (node : String) (conn : ℕ) (layer : String) (values : Values)
    → lookup node w.server.streams ≡ some conn
    → w.link conn ≡ open_link
    → lookup layer w.server.current ≡ some values
    → held w conn layer ≡ some values

registered_of_lookup :
    (node : String) (conn : ℕ) (streams : Dict ℕ)
    → lookup node streams ≡ some conn
    → is_registered conn streams ≡ true
unfolding lookup
registered_of_lookup node conn [] found = ground arith
registered_of_lookup node conn (entry ∷ streams) found =
    let rec = registered_of_lookup node conn streams in ground (arith, nat_eq_iff entry.1 conn)

push_layer-InSync :
    (decimal : ℤ → String) (layer : String) (values : Values) (w : World)
    → InSync w
    → InSync (push_layer decimal layer values w).0
unfolding push_layer
push_layer-InSync decimal layer values w sync node conn other v found is_on now =
    let reg = registered_of_lookup node conn w.server.streams found in
    let put = lookup-insert layer other values w.server.current in
    let old = sync node conn other v found is_on in
    held-push_layer decimal layer other values w conn
    ∙ rw (reg, is_on) (ground (arith, put, now, old))

disconnect-InSync : (node : String) (w : World) → InSync w → InSync (disconnect node w)
unfolding disconnect
disconnect-InSync node w sync other conn layer v found is_on now =
    let gone = lookup-erase node other w.server.streams in
    sync other conn layer v (ground (arith, gone, found)) is_on now

kept :
    (node other : String) (conn c : ℕ) (streams : Dict ℕ)
    → nat_eq c conn ≡ false
    → (if node == other then some conn else lookup other streams) ≡ some c
    → lookup other streams ≡ some c
kept node other conn c streams away found = ground (arith, nat_eq_iff c conn)

connect-InSync :
    (decimal : ℤ → String) (node : String) (conn : ℕ) (w : World)
    → w.link conn ≡ open_link
    → UniqueKeys w.server.current
    → InSync w
    → InSync (connect decimal node conn w)
unfolding connect register
connect-InSync decimal node conn w open_now unique sync other c layer v found is_on now =
    let w' = (register node conn w).0 in
    let same = server-push_to_stream decimal conn w.server.current w' in
    let found' = ap (λ (x : Server). lookup other x.streams) (sym same.0) ∙ found in
    let now' = ap (λ (x : Server). lookup layer x.current) (sym same.0) ∙ now in
    let on' = ap (λ (links : ℕ → Link). links c) (sym same.1) ∙ is_on in
    let put = lookup-insert node other conn w.server.streams in
    held-push_to_stream decimal conn c w.server.current w' layer open_now unique
    ∙ elim (Bool-cases (nat_eq c conn)) [
      | inl e ↦ rw (e, now') refl
      | inr e ↦ rw e (
          sync other c layer v (kept node other conn c w.server.streams e (sym put ∙ found')) on'
            now')
    ]

unique_keys : (decimal : ℤ → String) (w : World) → Run decimal w → UniqueKeys w.server.current
unfolding connect push_layer disconnect register
unique_keys decimal w (started link inbox) = tt
unique_keys decimal w (then_step _ _ run (connected node conn v is_on)) =
    let same = server-push_to_stream decimal conn v.server.current (register node conn v).0 in
    subst (λ (x : Server). UniqueKeys x.current) (sym same.0) (unique_keys decimal v run)
unique_keys decimal w (then_step _ _ run (pushed layer values v)) =
    insert-UniqueKeys layer values v.server.current (unique_keys decimal v run)
unique_keys decimal w (then_step _ _ run (disconnected node v)) = unique_keys decimal v run
unique_keys decimal w (then_step _ _ run (failed link v fewer)) = unique_keys decimal v run

nothing :
    (layer : String) (values : Values)
    → lookup layer [] ≡ some values
    → (held : Option Values) → held ≡ some values
unfolding lookup
nothing layer values now held = ground arith

-- In every run of whole operations from the server's start, the sidecar of every registered stream
-- that is open holds the current values of every layer.
pub Run-InSync : (decimal : ℤ → String) (w : World) → Run decimal w → InSync w
Run-InSync decimal w (started link inbox) =
    λ node conn layer values found is_on now. nothing layer values now _
Run-InSync decimal w (then_step _ _ run (connected node conn v is_on)) =
    connect-InSync decimal node conn v is_on (unique_keys decimal v run) (Run-InSync decimal v run)
Run-InSync decimal w (then_step _ _ run (pushed layer values v)) =
    push_layer-InSync decimal layer values v (Run-InSync decimal v run)
Run-InSync decimal w (then_step _ _ run (disconnected node v)) =
    disconnect-InSync node v (Run-InSync decimal v run)
Run-InSync decimal w (then_step _ _ run (failed link v fewer)) =
    λ node conn layer values found is_on.
      Run-InSync decimal v run node conn layer values found (fewer conn is_on)
