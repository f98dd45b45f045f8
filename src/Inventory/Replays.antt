-- ===== src/Inventory/Replays.antt =====
-- Repeated reservations of 62_grpc/server.go.
use go_basics.Common.{
  ℕ, ◌≡◌, ◌≢◌, sym, ap, ◌∙◌, String, some, List, [], ◌∷◌, arith, eq_iff, ◌==◌, ==_iff,
  if◌then◌else◌, Option-cases, Bool-cases, inl, inr,
}
use go_basics.Common.Dict.{
  string_comparable, nat_comparable, lookup, lookup-insert, lookup-insert_self,
}
use go_basics.Inventory.{ReserveResponse, reserve, reserve_message}
use go_basics.Inventory.Reserve.{Server, Message, seen_by, answer, after, after_all}

seen_by-after :
    (i : ℕ) (m : Message) (s : Server)
    → seen_by i (after m s) ≡ (
        if m.stream == i
        then (reserve_message m.at m.request (seen_by m.stream s) s.products).1.0
        else seen_by i s)
unfolding seen_by after
seen_by-after i m s = ground (
  arith,
  lookup-insert m.stream i (reserve_message m.at m.request (seen_by m.stream s) s.products).1.0
      s.streams,
)

-- A message with a key is answered, and its answer known.
after_answer :
    (m : Message) (s : Server)
    → m.request.idempotency_key ≢ ""
    → lookup m.request.idempotency_key (seen_by m.stream (after m s)) ≡ some (answer m s)
unfolding answer reserve_message
after_answer m s keyed =
    elim (Option-cases (lookup m.request.idempotency_key (seen_by m.stream s))) [
      | inl missing ↦ ground (
        arith,
        seen_by-after m.stream m s,
        eq_iff m.request.idempotency_key "",
        lookup-insert_self m.request.idempotency_key (reserve m.at m.request s.products).0
            (seen_by m.stream s),
      )
      | inr (r, found) ↦
          ground (arith, seen_by-after m.stream m s, eq_iff m.request.idempotency_key "")
    ]

-- What is known stays known.
after_known :
    (i : ℕ) (k : String) (r : ReserveResponse) (m : Message) (s : Server)
    → k ≢ ""
    → lookup k (seen_by i s) ≡ some r
    → lookup k (seen_by i (after m s)) ≡ some r
unfolding reserve_message
after_known i k r m s keyed known = elim (Bool-cases (m.stream == i)) [
  | inr elsewhere ↦ ground (arith, seen_by-after i m s)
  | inl here ↦
      let same : m.stream ≡ i = (==_iff m.stream i).0 here in
      elim (Option-cases (lookup m.request.idempotency_key (seen_by m.stream s))) [
        | inl missing ↦ ground (
          arith,
          seen_by-after i m s,
          eq_iff m.request.idempotency_key k,
          lookup-insert m.request.idempotency_key k (reserve m.at m.request s.products).0
              (seen_by m.stream s),
        )
        | inr (q, found) ↦ ground (
          arith,
          seen_by-after i m s,
          eq_iff m.request.idempotency_key "",
          eq_iff k "",
          lookup-insert m.request.idempotency_key k (reserve m.at m.request s.products).0
              (seen_by m.stream s),
        )
      ]
]

after_all_known :
    (i : ℕ) (k : String) (r : ReserveResponse) (ms : List Message) (s : Server)
    → k ≢ ""
    → lookup k (seen_by i s) ≡ some r
    → lookup k (seen_by i (after_all ms s)) ≡ some r
unfolding after_all
after_all_known i k r [] s keyed known = known
after_all_known i k r (m ∷ ms) s keyed known =
    after_all_known i k r ms (after m s) keyed (after_known i k r m s keyed known)

known_again :
    (m : Message) (r : ReserveResponse) (s : Server)
    → m.request.idempotency_key ≢ ""
    → lookup m.request.idempotency_key (seen_by m.stream s) ≡ some r
    → (answer m s ≡ r) × ((after m s).products ≡ s.products)
unfolding answer after reserve_message
known_again m r s keyed known = (
  ground (arith, eq_iff m.request.idempotency_key ""),
  ground (arith, eq_iff m.request.idempotency_key ""),
)

-- A message with a key, not the empty one, that its stream has had before gets the answer that the
-- earlier one got, and changes no stock, whatever other messages of this and of other streams came
-- between and whatever it asks for itself.
pub replayed :
    (first again : Message) (between : List Message) (s : Server)
    → first.request.idempotency_key ≢ ""
    → again.stream ≡ first.stream
    → again.request.idempotency_key ≡ first.request.idempotency_key
    → let before = after_all between (after first s) in
      (answer again before ≡ answer first s) × ((after again before).products ≡ before.products)
replayed first again between s keyed same_stream same_key =
    known_again again (answer first s) (after_all between (after first s))
      (λ e. keyed (sym same_key ∙ e))
      (after_all_known again.stream again.request.idempotency_key (answer first s) between
        (after first s) (λ e. keyed (sym same_key ∙ e))
        (ap (λ k. lookup k (seen_by again.stream (after first s))) same_key
          ∙ ap (λ i. lookup first.request.idempotency_key (seen_by i (after first s))) same_stream
          ∙ after_answer first s keyed))
