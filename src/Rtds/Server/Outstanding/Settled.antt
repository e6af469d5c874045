-- ===== src/Rtds/Server/Outstanding/Settled.antt =====
-- What the sidecars hold in every interleaving of StreamRuntime and PushLayer.
use shedpilot.Common.{
  String, ap, subst, ◌∙◌, ◌≡◌, sym, refl, true, false, some, List, [], ◌∷◌, ◌++◌, ℕ, arith, eq_iff,
  nat_eq_iff, All, Bool-cases, inl, inr, ◌==◌, nat_eq, is_nonempty, if◌then◌else◌,
}
use shedpilot.Common.Dict.{Dict, lookup, insert, erase, lookup-insert}
use shedpilot.Rtds.Server.{Values, open_link, Link, accept, Response, register, disconnect}
use shedpilot.Rtds.Server.Keys.{UniqueKeys, insert-UniqueKeys}
use shedpilot.Rtds.Server.Delivery.{is_open, held, is_registered, values_of, held-after_put}
use shedpilot.Rtds.Server.Outstanding.{
  Send, Serving, outstanding, replay, responses, begin, publish, arrive, Move, began, published,
  arrived, lost, ended, failed, Interleaving, started, moved,
}
use shedpilot.Rtds.Server.Outstanding.Due.{Due, Due-arrive}
use shedpilot.Rtds.Server.Outstanding.Sends.{
  is_one, outstanding-append, outstanding-taken, sends-begin, sends-begin_away, sends-publish,
  sends-publish_away,
}

-- Every open stream that is registered is due the current values of the layers that are not mixed.
pub record Settled (s : Serving) : Type 0 where
  pub unique : UniqueKeys s.world.server.current
  pub due :
      (conn : ℕ) (layer : String) (v : Values)
      → is_registered conn s.world.server.streams ≡ true
      → s.world.link conn ≡ open_link
      → s.mixed conn layer ≡ false
      → lookup layer s.world.server.current ≡ some v
      → Due v (held s.world conn layer) (outstanding conn layer s.sends)

registered_of_insert :
    (node : String) (conn c : ℕ) (streams : Dict ℕ)
    → nat_eq conn c ≡ false
    → is_registered c (insert node conn streams) ≡ true
    → is_registered c streams ≡ true
unfolding insert
registered_of_insert node conn c [] away there = ground (arith, away, there)
registered_of_insert node conn c (entry ∷ streams) away there =
    let rec = registered_of_insert node conn c streams away in ground arith

registered_of_erase :
    (node : String) (c : ℕ) (streams : Dict ℕ)
    → is_registered c (erase node streams) ≡ true
    → is_registered c streams ≡ true
unfolding erase
registered_of_erase node c [] there = there
registered_of_erase node c (entry ∷ streams) there =
    let rec = registered_of_erase node c streams in ground arith

begin-Settled :
    (node : String) (conn : ℕ) (s : Serving)
    → All (λ (x : Send). nat_eq x.conn conn ≡ false) s.sends
    → Settled s
    → Settled (begin node conn s)
unfolding begin register
begin-Settled node conn s fresh h = record {
  unique = h.unique;
  due = λ c layer v there is_on alone now.
      let server = s.world.server in
      elim (Bool-cases (nat_eq conn c)) [
        | inl e ↦
            let here = sends-begin conn layer v server.current s.sends h.unique now fresh in
            subst
              (λ k.
                Due v (held s.world k layer)
                  (outstanding k layer (replay conn server.current ++ s.sends)))
              ((nat_eq_iff conn c).0 e)
              (subst (Due v (held s.world conn layer)) (sym here) (refl, tt))
        | inr e ↦
            let away = sends-begin_away conn c layer server.current s.sends e in
            let back = nat_eq_iff c conn in
            let forth = nat_eq_iff conn c in
            let reg = registered_of_insert node conn c server.streams e there in
            let before = h.due c layer v reg is_on (ground arith) now in
            subst (Due v (held s.world c layer)) (sym away) before
      ];
}

publish-Settled :
    (layer : String) (values : Values) (s : Serving) → Settled s → Settled (publish layer values s)
unfolding publish
publish-Settled layer values s h = record {
  unique = insert-UniqueKeys layer values s.world.server.current h.unique;
  due = λ c other v there is_on alone now.
      let server = s.world.server in
      let put = lookup-insert layer other values server.current in
      elim (Bool-cases (layer == other)) [
        | inl e ↦
            let same = (eq_iff layer other).0 e in
            let new : values ≡ v = ground (arith, put, now, e) in
            let free : is_nonempty (outstanding c other s.sends) ≡ false =
              ground (arith, alone, e) in
            subst
              (λ k.
                Due v (held s.world c other)
                  (outstanding c other (responses k values server.streams ++ s.sends)))
              (sym same)
              (subst
                (λ u.
                  Due v (held s.world c other)
                    (outstanding c other (responses other u server.streams ++ s.sends)))
                (sym new)
                (sends-publish c other v (held s.world c other) server.streams s.sends there free))
        | inr e ↦
            let before =
              h.due c other v there is_on (ground (arith, alone, e))
                (ground (arith, put, now, e)) in
            subst (Due v (held s.world c other))
              (sym (sends-publish_away c layer other values server.streams s.sends e)) before
      ];
}

link_away :
    (link : ℕ → Link) (to conn : ℕ)
    → is_open (link to) ≡ false
    → link conn ≡ open_link
    → nat_eq to conn ≡ false
link_away link to conn off is_on = elim (Bool-cases (nat_eq to conn)) [
  | inl e ↦ cc (ap link ((nat_eq_iff to conn).0 e), ap is_open is_on, off)
  | inr e ↦ e
]

held-arrive :
    (x : Send) (r : Response) (inbox : ℕ → Dict Response) (c : ℕ) (layer : String)
    → r.layer ≡ x.layer
    → r.values ≡ x.values
    → values_of (lookup layer (accept x.conn r inbox c))
      ≡ (if is_one c layer x then some x.values else values_of (lookup layer (inbox c)))
unfolding accept
held-arrive x r inbox c layer of_layer of_values =
    let back = nat_eq_iff c x.conn in
    let forth = nat_eq_iff x.conn c in
    elim (Bool-cases (nat_eq x.conn c)) [
      | inl e ↦
          let here : nat_eq c x.conn ≡ true = ground (arith, e, back, forth) in
          rw (here, e)
            (ap values_of (lookup-insert r.layer layer r (inbox c))
              ∙ held-after_put true x.layer layer r (lookup layer (inbox c)) of_layer
              ∙ rw of_values refl)
      | inr e ↦
          let away : nat_eq c x.conn ≡ false = ground (arith, e, back, forth) in rw (away, e) refl
    ]

arrive-Settled :
    (x : Send) (pre post : List Send) (r : Response) (s : Serving)
    → s.sends ≡ pre ++ x ∷ post
    → r.layer ≡ x.layer
    → r.values ≡ x.values
    → Settled s
    → Settled (arrive r x.conn (pre ++ post) s)
unfolding arrive
arrive-Settled x pre post r s split of_layer of_values h = record {
  unique = h.unique;
  due = λ c layer v there is_on alone now.
      let ones = outstanding c layer in
      let was = ap ones split ∙ outstanding-taken c layer pre post x in
      subst (λ o. Due v o (ones (pre ++ post)))
        (sym (held-arrive x r s.world.inbox c layer of_layer of_values))
        (Due-arrive v (is_one c layer x) x.values (held s.world c layer) (ones pre) (ones post)
          (ones s.sends) (ones (pre ++ post)) was (λ _. outstanding-append c layer pre post)
          (h.due c layer v there is_on alone now));
}

lost-Settled :
    (x : Send) (pre post : List Send) (s : Serving)
    → s.sends ≡ pre ++ x ∷ post
    → is_open (s.world.link x.conn) ≡ false
    → Settled s
    → Settled (record s { sends = pre ++ post })
lost-Settled x pre post s split off h = record {
  unique = h.unique;
  due = λ c layer v there is_on alone now.
      let away = link_away s.world.link x.conn c off is_on in
      let same =
        ap (outstanding c layer) split ∙ outstanding-taken c layer pre post x ∙ rw away refl in
      subst (Due v (held s.world c layer)) same (h.due c layer v there is_on alone now);
}

disconnect-Settled :
    (node : String) (s : Serving)
    → Settled s
    → Settled (record s { world = disconnect node s.world })
unfolding disconnect
disconnect-Settled node s h = record {
  unique = h.unique;
  due =
      λ c layer v there. h.due c layer v (registered_of_erase node c s.world.server.streams there);
}

Move-Settled : {s t : Serving} → Move s t → Settled s → Settled t
Move-Settled (began node conn s is_on fresh) h = begin-Settled node conn s fresh h
Move-Settled (published layer values s) h = publish-Settled layer values s h
Move-Settled (arrived x pre post r s split of_layer of_values is_on) h =
    arrive-Settled x pre post r s split of_layer of_values h
Move-Settled (lost x pre post s split off) h = lost-Settled x pre post s split off h
Move-Settled (ended node s) h = disconnect-Settled node s h
Move-Settled (failed link s fewer) h = record {
  unique = h.unique;
  due = λ c layer v there is_on. h.due c layer v there (fewer c is_on);
}

Interleaving-Settled : {s : Serving} → Interleaving s → Settled s
Interleaving-Settled (started link inbox) = record {
  unique = tt;
  due = λ c layer v there. ground (arith, there);
}
Interleaving-Settled (moved run move) = Move-Settled move (Interleaving-Settled run)

-- In every interleaving of the locked parts of StreamRuntime and PushLayer, by however many
-- goroutines, with their single sends, in whatever order these arrive, and with streams that end
-- or fail: once no send of a layer to a registered open stream is outstanding, its sidecar holds
-- the layer's current values, if none was outstanding when the layer was last pushed after the
-- stream began.
pub held-interleaved :
    {s : Serving} (conn : ℕ) (layer : String) (v : Values)
    → Interleaving s
    → is_registered conn s.world.server.streams ≡ true
    → s.world.link conn ≡ open_link
    → s.mixed conn layer ≡ false
    → lookup layer s.world.server.current ≡ some v
    → outstanding conn layer s.sends ≡ []
    → held s.world conn layer ≡ some v
held-interleaved {s} conn layer v run there is_on alone now none_left =
    let due = (Interleaving-Settled run).due conn layer v there is_on alone now in
    subst (Due v (held s.world conn layer)) none_left due
