-- ===== src/Cases/History.antt =====
-- packages/case-store/src/index.ts: the life of the case store, as the transactions of `createKycCase`
-- and `submitBusinessCommand` follow one another.
use ehfconcept.Prelude.{
  ◌≡◌, ◌<◌, inl, inr, refl, sym, ap, ◌∙◌, subst, true, ◌&&◌, ℕ, zero, suc, String, List, [], ◌∷◌,
  ◌++◌, none, ◌==◌, compare_texts, compare_numbers, eq_iff, Bool-cases, arith, filter, map,
}
use ehfconcept.Cases.Events.{
  Platform, CaseEvent, EventInput, event_of, is_listed, head_digest, read_events,
  verify_case_ledger,
}
use ehfconcept.Cases.Chain.{IsChain}
use ehfconcept.Cases.Sealed.{
  IsSealed, append-IsSealed, sealed_ledger_verifies, filter-append-yes, filter-append-no,
  append_case_event-parts, listed_here,
}
use ehfconcept.Cases.Growth.{number_of, sequence_of, Grows, Step, Step-Grows}
use ehfconcept.Cases.Db.{CaseDb, find_case}

abbrev pub numbers_to : ℕ → List ℕ
numbers_to zero = []
numbers_to (suc n) = numbers_to n ++ suc n ∷ []

abbrev pub numbers_of : List CaseEvent → List ℕ
numbers_of es = map (λ e. e.case_sequence) es

-- The events of every case bear the numbers from one to the sequence number of the case, in this order.
abbrev pub IsNumbered : CaseDb → Type 0
IsNumbered db =
    (t c : String)
    → numbers_of (filter (is_listed t c 0) db.ledger.events) ≡ numbers_to (sequence_of t c db)

-- Transactions one after another.
pub data Served (p : Platform) (Allowed : String → Type 0) (db : CaseDb) : CaseDb → Type 0 where
  here : Served p Allowed db db
  next :
      {db₁ db₂ : CaseDb}
      → Served p Allowed db db₁
      → Step p Allowed db₁ db₂
      → Served p Allowed db db₂

numbers_of-append :
    (es : List CaseEvent) (e : CaseEvent)
    → numbers_of (es ++ e ∷ []) ≡ numbers_of es ++ e.case_sequence ∷ []
numbers_of-append [] e = refl
numbers_of-append (x ∷ xs) e = ap (λ ns. x.case_sequence ∷ ns) (numbers_of-append xs e)

event_of-sequence :
    (p : Platform) (event_id : String) (input : EventInput)
    → (event_of p event_id input).case_sequence ≡ input.sequence
unfolding event_of
event_of-sequence p event_id input = refl

Grows-IsNumbered :
    {p : Platform} {Allowed : String → Type 0} (db db' : CaseDb)
    → Grows p Allowed db db'
    → IsNumbered db
    → IsNumbered db'
Grows-IsNumbered {p} db db' g numbered t c =
    let (h, ht, hc, hd, heads, events) =
      append_case_event-parts p g.event_id g.outbox_id g.input db.ledger in
    let e = event_of p g.event_id g.input in
    let here =
      listed_here p g.event_id t c g.input (subst (λ n. 0 < n) (sym g.numbered) (omega arith)) in
    let all : db'.ledger.events ≡ db.ledger.events ++ e ∷ [] =
      ap (λ l. l.events) g.appended ∙ events in
    ap (λ es. numbers_of (filter (is_listed t c 0) es)) all
    ∙ elim (Bool-cases (g.input.tenant_id == t && g.input.case_id == c)) [
      | inr apart ↦
          ap numbers_of (filter-append-no (is_listed t c 0) db.ledger.events e (here ∙ apart))
          ∙ numbered t c
          ∙ ap (λ o. numbers_to (number_of o)) (sym (g.others t c apart))
      | inl own ↦
          let (st, sc) = ids own in
          ap numbers_of (filter-append-yes (is_listed t c 0) db.ledger.events e (here ∙ own))
          ∙ numbers_of-append _ e
          ∙ ap (λ ns. ns ++ e.case_sequence ∷ []) (numbered t c)
          ∙ ap (λ n. numbers_to (sequence_of t c db) ++ n ∷ [])
              (event_of-sequence p g.event_id g.input ∙ g.numbered ∙ ap suc (same_case db st sc))
          ∙ ap numbers_to
              (sym (sym (same_case db' st sc) ∙ g.own ∙ g.numbered ∙ ap suc (same_case db st sc)))
    ]
  where
    ids :
        (g.input.tenant_id == t && g.input.case_id == c) ≡ true
        → (g.input.tenant_id ≡ t) × (g.input.case_id ≡ c)
    ids own = ground (arith, eq_iff g.input.tenant_id t, eq_iff g.input.case_id c)

    same_case :
        (d : CaseDb)
        → g.input.tenant_id ≡ t
        → g.input.case_id ≡ c
        → sequence_of g.input.tenant_id g.input.case_id d ≡ sequence_of t c d
    same_case d st sc =
        ap (λ x. sequence_of x g.input.case_id d) st ∙ ap (λ y. sequence_of t y d) sc

nothing_numbered : (es : List CaseEvent) → numbers_of es ≡ [] → es ≡ []
nothing_numbered [] e = refl
nothing_numbered (x ∷ xs) e = absurd (cc e)

unheaded :
    (p : Platform) (t c : String) (db : CaseDb)
    → IsSealed p db.ledger
    → IsNumbered db
    → sequence_of t c db ≡ 0
    → none ≡ head_digest t c db.ledger.heads
unfolding read_events
unheaded p t c db sealed numbered n =
    let empty = nothing_numbered _ (numbered t c ∙ ap numbers_to n) in
    subst (λ es. IsChain p none (read_events p es) (head_digest t c db.ledger.heads)) empty
      (sealed t c)

abbrev pub Anything : String → Type 0
Anything t = Unit

-- A time that the database gives back as it was written.
abbrev pub IsKept : Platform → String → Type 0
IsKept p t = p.stored_time t ≡ t

Grows-IsSealed :
    {p : Platform} (db db' : CaseDb)
    → Grows p (IsKept p) db db'
    → IsNumbered db
    → IsSealed p db.ledger
    → IsSealed p db'.ledger
Grows-IsSealed {p} db db' g numbered sealed = subst (IsSealed p) (sym g.appended) (
    append-IsSealed p g.event_id g.outbox_id g.input db.ledger sealed (record {
      numbered = subst (λ n. 0 < n) (sym g.numbered) (omega arith);
      linked = elim g.linked [
        | inl under ↦ under
        | inr (first, n) ↦ first ∙ unheaded p _ _ db sealed numbered n
      ];
      occurred = g.occurred;
      recorded = g.recorded;
    }))

module _ {p : Platform} {Allowed : String → Type 0} {db : CaseDb} where
  -- Whatever cases are created and whatever commands are submitted, accepted or refused, the events of
  -- every case stay numbered from one to the sequence number that stands in its case, without a gap.
  pub Served-IsNumbered : {db' : CaseDb} → Served p Allowed db db' → IsNumbered db → IsNumbered db'
  Served-IsNumbered here numbered = numbered
  Served-IsNumbered (next {db₁} {db₂} served step) numbered =
      let before = Served-IsNumbered served numbered in
      elim (Step-Grows step) [
        | inl same ↦ subst IsNumbered (sym same) before
        | inr grows ↦ Grows-IsNumbered db₁ db₂ grows before
      ]

Served-IsSealed :
    {p : Platform} {db db' : CaseDb}
    → Served p (IsKept p) db db'
    → IsNumbered db
    → IsSealed p db.ledger
    → IsSealed p db'.ledger
Served-IsSealed here numbered sealed = sealed
Served-IsSealed {p} (next {db₁} {db₂} served step) numbered sealed =
    let before = Served-IsSealed served numbered sealed in
    elim (Step-Grows step) [
      | inl same ↦ subst (λ d. IsSealed p d.ledger) (sym same) before
      | inr grows ↦ Grows-IsSealed db₁ db₂ grows (Served-IsNumbered served numbered) before
    ]

-- Where the times of the transactions come back from the database as they were written, the ledger of a
-- case store that starts without cases and events is verified for every case at any later time.
pub transacted_ledger_verifies :
    (p : Platform) (db db' : CaseDb) (t c : String)
    → db.cases ≡ []
    → db.ledger ≡ record { events = []; heads = []; outbox = [] }
    → Served p (IsKept p) db db'
    → (verify_case_ledger p t c db'.ledger).valid ≡ true
unfolding find_case read_events head_digest
transacted_ledger_verifies p db db' t c no_cases no_events served =
    sealed_ledger_verifies p db'.ledger t c (
      Served-IsSealed served
        (λ a b.
          ap (λ l. numbers_of (filter (is_listed a b 0) l.events)) no_events
          ∙ ap (λ cs. numbers_to (number_of (find_case a b cs))) (sym no_cases))
        (subst (IsSealed p) (sym no_events) (λ a b. refl)))
