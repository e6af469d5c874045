-- ===== src/Rtds/Server/Races.antt =====
-- StreamRuntime and PushLayer from several goroutines: what the order of their steps leaves behind.
use shedpilot.Common.{
  String, ap, ◌≡◌, ◌∙◌, refl, true, false, none, some, [], ◌∷◌, ℕ, ℤ, arith, eq_iff, nat_eq_iff,
  Bool-cases, inl, inr, ◌==◌,
}
use shedpilot.Common.Dict.{Dict, lookup, insert, erase, lookup-insert, lookup-erase}
use shedpilot.Rtds.Server.{
  Values, Server, open_link, World, register, push_layer, push_to_stream, connect, disconnect,
}
use shedpilot.Rtds.Server.Keys.{UniqueKeys}
use shedpilot.Rtds.Server.Delivery.{
  held, is_registered, held-push_layer, held-push_to_stream, server-push_to_stream,
}

erase-insert {ℓ} :
    {V : Type ℓ} (node : String) (v : V) (streams : Dict V)
    → erase node (insert node v streams) ≡ erase node streams
unfolding erase insert
erase-insert node v [] = rw ((eq_iff node node).1 refl) refl
erase-insert node v (entry ∷ streams) =
    let rec = erase-insert node v streams in
    elim (Bool-cases (entry.0 == node)) [
      | inl e ↦ rw (e, insert, (eq_iff node node).1 refl) refl
      | inr e ↦ rw (e, insert) (rw e (ap (λ rest. entry ∷ rest) rec))
    ]

registered-erase :
    (node : String) (conn : ℕ) (streams : Dict ℕ)
    → is_registered conn streams ≡ false
    → is_registered conn (erase node streams) ≡ false
unfolding erase
registered-erase node conn [] away = refl
registered-erase node conn (entry ∷ streams) away =
    let rec = registered-erase node conn streams in ground arith

registered-insert :
    (node : String) (conn : ℕ) (streams : Dict ℕ)
    → is_registered conn (insert node conn streams) ≡ true
unfolding insert
registered-insert node conn [] = ground arith
registered-insert node conn (entry ∷ streams) =
    let rec = registered-insert node conn streams in ground arith

module _ (decimal : ℤ → String) where
  pub streams-connect :
      (node : String) (conn : ℕ) (w : World)
      → (connect decimal node conn w).server.streams ≡ insert node conn w.server.streams
  unfolding connect register
  streams-connect node conn w =
      ap (λ (s : Server). s.streams)
        (server-push_to_stream decimal conn w.server.current (register node conn w).0).0

  reconnected :
      (node : String) (old new : ℕ) (w : World)
      → (disconnect node (connect decimal node new (connect decimal node old w))).server.streams
        ≡ erase node w.server.streams
  unfolding disconnect
  reconnected node old new w =
      rw
        (
          streams-connect node new (connect decimal node old w),
          streams-connect node old w,
          erase-insert node new (insert node old w.server.streams),
          erase-insert node old w.server.streams,
        )
        refl

  -- An Envoy that reconnects before its old stream has ended is deregistered when the old stream
  -- ends: no later push of whatever layer reaches its open connection.
  pub push-after_reconnect :
      (node : String) (old new : ℕ) (w : World) (layer other : String) (values : Values)
      → is_registered new w.server.streams ≡ false
      → let ended = disconnect node (connect decimal node new (connect decimal node old w)) in
        (lookup node ended.server.streams ≡ none)
        × (held (push_layer decimal layer values ended).0 new other ≡ held ended new other)
  push-after_reconnect node old new w layer other values fresh =
      let ended = disconnect node (connect decimal node new (connect decimal node old w)) in
      let gone = lookup-erase node node w.server.streams in
      (
        ap (lookup node) (reconnected node old new w) ∙ gone ∙ rw ((eq_iff node node).1 refl) refl,
        held-push_layer decimal layer other values ended new
            ∙ rw (reconnected node old new w, registered-erase node new w.server.streams fresh)
                refl,
      )

  -- A layer that is pushed between the registration of a stream and the replay of the copy taken
  -- with it: the sidecar ends with the old values, though it was sent the current ones.
  pub stale-after_replay :
      (node : String) (conn : ℕ) (w : World) (layer : String) (before values : Values)
      → UniqueKeys w.server.current
      → w.link conn ≡ open_link
      → lookup layer w.server.current ≡ some before
      → let (registered, snapshot) = register node conn w in
        let pushed = (push_layer decimal layer values registered).0 in
        let replayed = push_to_stream decimal conn snapshot pushed in
        (lookup layer replayed.server.current ≡ some values)
        × (held pushed conn layer ≡ some values)
        × (held replayed conn layer ≡ some before)
  unfolding register push_layer
  stale-after_replay node conn w layer before values unique is_on now =
      let registered = (register node conn w).0 in
      let pushed = (push_layer decimal layer values registered).0 in
      let same = server-push_to_stream decimal conn w.server.current pushed in
      let put = lookup-insert layer layer values w.server.current in
      let is_layer = (eq_iff layer layer).1 refl in
      (
        ap (λ (s : Server). lookup layer s.current) same.0 ∙ put ∙ rw is_layer refl,
        held-push_layer decimal layer layer values registered conn
            ∙ rw (is_layer, is_on, registered-insert node conn w.server.streams) refl,
        held-push_to_stream decimal conn conn w.server.current pushed layer is_on unique
            ∙ rw ((nat_eq_iff conn conn).1 refl, now) refl,
      )
