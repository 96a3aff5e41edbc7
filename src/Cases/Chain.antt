-- ===== src/Cases/Chain.antt =====
-- What `verifyCaseLedger` accepts, and that the ledger which `appendCaseEvent` writes is accepted.
use ehfconcept.Prelude.{
  ℕ, zero, suc, ◌≡◌, ◌↔◌, ◌⊎◌, inl, inr, refl, sym, ap, ◌∙◌, Bool, true, false, ◌&&◌, String, List,
  [], ◌∷◌, ◌++◌, Option, none, some, ◌==◌, compare_texts, compare_numbers, take, Result, ok, err,
  arith, eq_iff, Bool-cases, or_else,
}
use ehfconcept.Cases.Events.{
  Platform, CaseEvent, CaseLedger, digest_of, read_event, read_events, list_case_events,
  same_digest, check_events, verify_case_ledger,
}

-- Each event carries the digest of its content and names the digest of the one before it.
abbrev pub IsChain : Platform → Option String → List CaseEvent → Option String → Type 0
IsChain p previous [] last = previous ≡ last
IsChain p previous (e ∷ es) last =
    (e.previous_event_digest ≡ previous)
    × (e.event_digest ≡ digest_of p e)
    × IsChain p (some e.event_digest) es last

same_digest_iff : (a b : Option String) → (same_digest a b ≡ true) ↔ (a ≡ b)
same_digest_iff none none = (λ _. refl, λ _. refl)
same_digest_iff none (some b) = (λ e. absurd (cc e), λ e. absurd (cc e))
same_digest_iff (some a) none = (λ e. absurd (cc e), λ e. absurd (cc e))
same_digest_iff (some a) (some b) =
    (λ e. ap some ((eq_iff a b).0 e), λ e. (eq_iff a b).1 (ap (λ o. or_else o a) e))

both_tests : (a b : Bool) → (a && b) ≡ true → (a ≡ true) × (b ≡ true)
both_tests a b h = ground arith

check_events-IsChain :
    (p : Platform) (previous last : Option String) (es : List CaseEvent)
    → check_events p previous es ≡ ok last
    → IsChain p previous es last
unfolding check_events
check_events-IsChain p previous last [] e = ap (λ r. passed r previous) e
  where
    passed : Result ℕ (Option String) → Option String → Option String
    passed (ok o) d = o
    passed (err n) d = d
check_events-IsChain p previous last (x ∷ xs) e =
    elim (Bool-cases
      (same_digest x.previous_event_digest previous && x.event_digest == digest_of p x)) [
        | inr t ↦
            let no : err x.case_sequence ≡ ok last = rw (t, check_events) at e in absurd (cc no)
        | inl t ↦
            let (linked, hashed) = both_tests _ _ t in
            (
              (same_digest_iff _ _).0 linked,
              (eq_iff _ _).0 hashed,
              check_events-IsChain p (some x.event_digest) last xs (rw (t, check_events) at e),
            )
      ]

pub IsChain-check_events :
    (p : Platform) (previous last : Option String) (es : List CaseEvent)
    → IsChain p previous es last
    → check_events p previous es ≡ ok last
unfolding check_events
IsChain-check_events p previous last [] c = ap ok c
IsChain-check_events p previous last (x ∷ xs) c =
    rw ((same_digest_iff _ _).1 c.0, (eq_iff _ _).1 c.1, check_events)
      (IsChain-check_events p (some x.event_digest) last xs c.2)

result-cases :
    (r : Result ℕ (Option String))
    → ((last : Option String) × (r ≡ ok last)) ⊎ ((n : ℕ) × (r ≡ err n))
result-cases (ok last) = inl (last, refl)
result-cases (err n) = inr (n, refl)

valid-check :
    (p : Platform) (t c : String) (s : CaseLedger)
    → (verify_case_ledger p t c s).valid ≡ true
    → (last : Option String) × (check_events p none (list_case_events p t c 0 s) ≡ ok last)
unfolding verify_case_ledger
valid-check p t c s v = elim (result-cases (check_events p none (list_case_events p t c 0 s))) [
  | inl (last, e) ↦ (last, e)
  | inr (n, e) ↦ let no : false ≡ true = rw (e, verify_case_ledger) at v in absurd (cc no)
]

pub check-valid :
    (p : Platform) (t c : String) (s : CaseLedger) (last : Option String)
    → check_events p none (list_case_events p t c 0 s) ≡ ok last
    → ((verify_case_ledger p t c s).valid ≡ true) × ((verify_case_ledger p t c s).head ≡ last)
unfolding verify_case_ledger
check-valid p t c s last e = (rw (e, verify_case_ledger) refl, rw (e, verify_case_ledger) refl)

-- The verification of a case succeeds exactly when the events that are listed for it, at most a thousand
-- of them, form a chain: each carries the digest of its content as it is read back, and names the
-- digest of the one before it, and the first names none.
pub verify_case_ledger-IsChain :
    (p : Platform) (t c : String) (s : CaseLedger)
    → ((verify_case_ledger p t c s).valid ≡ true)
      ↔ ((last : Option String) × IsChain p none (list_case_events p t c 0 s) last)
verify_case_ledger-IsChain p t c s = (
  λ v. let (last, e) = valid-check p t c s v in (last, check_events-IsChain p none last _ e),
  λ (last, chain). (check-valid p t c s last (IsChain-check_events p none last _ chain)).0,
)

pub IsChain-take :
    (p : Platform) (n : ℕ) (previous last : Option String) (es : List CaseEvent)
    → IsChain p previous (read_events p es) last
    → (l : Option String) × IsChain p previous (read_events p (take n es)) l
unfolding read_events
IsChain-take p zero previous last es c = (previous, refl)
IsChain-take p (suc n) previous last [] c = (previous, refl)
IsChain-take p (suc n) previous last (x ∷ xs) c =
    let (l, rest) = IsChain-take p n (some (read_event p x).event_digest) last xs c.2 in
    (l, (c.0, c.1, rest))

pub IsChain-append :
    (p : Platform) (previous last : Option String) (es : List CaseEvent) (e : CaseEvent)
    → IsChain p previous (read_events p es) last
    → (read_event p e).previous_event_digest ≡ last
    → (read_event p e).event_digest ≡ digest_of p (read_event p e)
    → IsChain p previous (read_events p (es ++ e ∷ [])) (some (read_event p e).event_digest)
unfolding read_events
IsChain-append p previous last [] e c linked hashed = (linked ∙ sym c, hashed, refl)
IsChain-append p previous last (x ∷ xs) e c linked hashed =
    (c.0, c.1, IsChain-append p (some (read_event p x).event_digest) last xs e c.2 linked hashed)
