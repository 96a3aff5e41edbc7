-- ===== src/Cases/Sealed.antt =====
-- The ledger which `appendCaseEvent` of packages/case-store/src/index.ts writes is one that
-- `verifyCaseLedger` accepts.
use ehfconcept.Prelude.{
  ◌<◌, ◌≡◌, inl, inr, refl, sym, ap, subst, ◌∙◌, Bool, true, false, ◌&&◌, String, List, [], ◌∷◌,
  ◌++◌, none, some, ◌==◌, compare_texts, compare_numbers, filter, arith, eq_iff, Bool-cases,
}
use ehfconcept.Cases.Events.{
  Platform, EventInput, CaseEvent, ChainHead, CaseLedger, digest_of, envelope_of, event_of, is_head,
  put_head, head_digest, append_case_event, is_listed, read_event, read_events, list_case_events,
  verify_case_ledger,
}
use ehfconcept.Cases.Chain.{
  IsChain, IsChain-check_events, IsChain-take, IsChain-append, check-valid,
}

-- The events of every case form a chain that ends in the head on record.
abbrev pub IsSealed : Platform → CaseLedger → Type 0
IsSealed p s =
    (t c : String)
    → IsChain p none (read_events p (filter (is_listed t c 0) s.events)) (head_digest t c s.heads)

pub filter-append-yes :
    (f : CaseEvent → Bool) (es : List CaseEvent) (e : CaseEvent)
    → f e ≡ true
    → filter f (es ++ e ∷ []) ≡ filter f es ++ e ∷ []
filter-append-yes f [] e h = rw h refl
filter-append-yes f (x ∷ xs) e h = ground (arith, filter-append-yes f xs e h)

pub filter-append-no :
    (f : CaseEvent → Bool) (es : List CaseEvent) (e : CaseEvent)
    → f e ≡ false
    → filter f (es ++ e ∷ []) ≡ filter f es
filter-append-no f [] e h = rw h refl
filter-append-no f (x ∷ xs) e h = ground (arith, filter-append-no f xs e h)

head_digest-put_head :
    (h : ChainHead) (hs : List ChainHead)
    → head_digest h.tenant_id h.case_id (put_head h hs) ≡ some h.event_digest
unfolding head_digest put_head
head_digest-put_head h [] =
    ground (arith, eq_iff h.tenant_id h.tenant_id, eq_iff h.case_id h.case_id)
head_digest-put_head h (x ∷ xs) =
    ground
      (arith, head_digest-put_head h xs, eq_iff h.tenant_id h.tenant_id, eq_iff h.case_id h.case_id)

same_key :
    (t c : String) (h x : ChainHead)
    → is_head h.tenant_id h.case_id x ≡ true
    → is_head t c h ≡ false
    → is_head t c x ≡ false
same_key t c h x k n = ground (
  arith,
  eq_iff x.tenant_id h.tenant_id,
  eq_iff x.case_id h.case_id,
  eq_iff x.tenant_id t,
  eq_iff x.case_id c,
  eq_iff h.tenant_id t,
  eq_iff h.case_id c,
)

put_head-other :
    (t c : String) (h : ChainHead) (hs : List ChainHead)
    → is_head t c h ≡ false
    → head_digest t c (put_head h hs) ≡ head_digest t c hs
unfolding head_digest put_head
put_head-other t c h [] n = rw (n, head_digest, put_head) refl
put_head-other t c h (x ∷ xs) n = elim (Bool-cases (is_head h.tenant_id h.case_id x)) [
  | inl k ↦ rw (k, n, same_key t c h x k n, head_digest, put_head) refl
  | inr k ↦ elim (Bool-cases (is_head t c x)) [
    | inl m ↦ rw (k, m, head_digest, put_head) refl
    | inr m ↦ rw (k, m, head_digest, put_head) (put_head-other t c h xs n)
  ]
]

-- An event that is written under the head of its case, with times that come back as they were written.
pub record IsNext (p : Platform) (s : CaseLedger) (input : EventInput) : Type 0 where
  pub numbered : 0 < input.sequence
  pub linked : input.previous_event_digest ≡ head_digest input.tenant_id input.case_id s.heads
  pub occurred : p.stored_time input.occurred_at ≡ input.occurred_at
  pub recorded : p.stored_time input.recorded_at ≡ input.recorded_at

pub listed_here :
    (p : Platform) (event_id t c : String) (input : EventInput)
    → 0 < input.sequence
    → is_listed t c 0 (event_of p event_id input) ≡ (input.tenant_id == t && input.case_id == c)
unfolding event_of
listed_here p event_id t c input h = ground arith

digest_kept :
    (p : Platform) (event_id : String) (input : EventInput)
    → p.stored_time input.occurred_at ≡ input.occurred_at
    → p.stored_time input.recorded_at ≡ input.recorded_at
    → (read_event p (event_of p event_id input)).event_digest
      ≡ digest_of p (read_event p (event_of p event_id input))
unfolding event_of read_event digest_of envelope_of
digest_kept p event_id input o r = rw (o, r) refl

pub append_case_event-parts :
    (p : Platform) (event_id outbox_id : String) (input : EventInput) (s : CaseLedger)
    → (h : ChainHead) × (h.tenant_id ≡ input.tenant_id)
      × (h.case_id ≡ input.case_id)
      × (h.event_digest ≡ (event_of p event_id input).event_digest)
      × ((append_case_event p event_id outbox_id input s).heads ≡ put_head h s.heads)
      × ((append_case_event p event_id outbox_id input s).events
          ≡ s.events ++ event_of p event_id input ∷ [])
unfolding append_case_event
append_case_event-parts p event_id outbox_id input s = (_, refl, refl, refl, refl, refl)

kept_link :
    (p : Platform) (event_id : String) (input : EventInput)
    → (read_event p (event_of p event_id input)).previous_event_digest ≡ input.previous_event_digest
unfolding event_of read_event
kept_link p event_id input = refl

kept_digest :
    (p : Platform) (event_id : String) (input : EventInput)
    → (event_of p event_id input).event_digest
      ≡ (read_event p (event_of p event_id input)).event_digest
unfolding event_of read_event
kept_digest p event_id input = refl

module _ (p : Platform) where
  pub append-IsSealed :
      (event_id outbox_id : String) (input : EventInput) (s : CaseLedger)
      → IsSealed p s
      → IsNext p s input
      → IsSealed p (append_case_event p event_id outbox_id input s)
  append-IsSealed event_id outbox_id input s sealed n t c =
      let (h, ht, hc, hd, heads, events) = append_case_event-parts p event_id outbox_id input s in
      let e = event_of p event_id input in
      let here = listed_here p event_id t c input n.numbered in
      rw (heads, events)
        (elim (Bool-cases (input.tenant_id == t && input.case_id == c)) [
          | inr apart ↦
              rw
                (
                  filter-append-no (is_listed t c 0) s.events e (here ∙ apart),
                  put_head-other t c h s.heads (other h ht hc apart),
                )
                (sealed t c)
          | inl own ↦
              let (st, sc) = ids own in
              rw (filter-append-yes (is_listed t c 0) s.events e (here ∙ own)) (
                subst
                  (λ d.
                    IsChain p none (read_events p (filter (is_listed t c 0) s.events ++ e ∷ [])) d)
                  (sym (headed h ht hc hd st sc))
                  (IsChain-append p none (head_digest t c s.heads)
                    (filter (is_listed t c 0) s.events) e (sealed t c) (linked st sc)
                    (digest_kept p event_id input n.occurred n.recorded)))
        ])
    where
      ids :
          (input.tenant_id == t && input.case_id == c) ≡ true
          → (input.tenant_id ≡ t) × (input.case_id ≡ c)
      ids own = ground (arith, eq_iff input.tenant_id t, eq_iff input.case_id c)

      other :
          (h : ChainHead)
          → h.tenant_id ≡ input.tenant_id
          → h.case_id ≡ input.case_id
          → (input.tenant_id == t && input.case_id == c) ≡ false
          → is_head t c h ≡ false
      other h ht hc apart = rw (ht, hc) apart

      linked :
          input.tenant_id ≡ t
          → input.case_id ≡ c
          → (read_event p (event_of p event_id input)).previous_event_digest
            ≡ head_digest t c s.heads
      linked st sc =
          kept_link p event_id input
          ∙ subst (λ x. input.previous_event_digest ≡ head_digest x c s.heads) st
              (subst (λ x. input.previous_event_digest ≡ head_digest input.tenant_id x s.heads) sc
                n.linked)

      headed :
          (h : ChainHead)
          → h.tenant_id ≡ input.tenant_id
          → h.case_id ≡ input.case_id
          → h.event_digest ≡ (event_of p event_id input).event_digest
          → input.tenant_id ≡ t
          → input.case_id ≡ c
          → head_digest t c (put_head h s.heads)
            ≡ some (read_event p (event_of p event_id input)).event_digest
      headed h ht hc hd st sc =
          subst (λ x. head_digest x c (put_head h s.heads) ≡ some h.event_digest) (ht ∙ st)
            (subst (λ x. head_digest h.tenant_id x (put_head h s.heads) ≡ some h.event_digest)
              (hc ∙ sc) (head_digest-put_head h s.heads))
          ∙ ap some (hd ∙ kept_digest p event_id input)

  pub sealed_ledger_verifies :
      (s : CaseLedger) (t c : String) → IsSealed p s → (verify_case_ledger p t c s).valid ≡ true
  unfolding list_case_events read_events
  sealed_ledger_verifies s t c sealed =
      let (l, chain) =
        IsChain-take p 1000 none (head_digest t c s.heads) (filter (is_listed t c 0) s.events)
          (sealed t c) in
      (check-valid p t c s l (IsChain-check_events p none l (list_case_events p t c 0 s) chain)).0
