-- ===== src/Cases/Rows.antt =====
-- packages/case-store/src/index.ts: the statements on cases and events, seen through `select`.
use ehfconcept.Prelude.{
  ◌≡◌, refl, false, ◌&&◌, ℕ, String, List, [], ◌∷◌, ◌++◌, Option, none, some, ok, unless-ok, ◌==◌,
  compare_texts, compare_numbers, eq_iff, arith, find, is_some, or_else, update_rows,
}
use ehfconcept.Cases.Tables.{CaseStatus}
use ehfconcept.Cases.Events.{Platform, CaseLedger, EventInput, append_case_event}
use ehfconcept.Cases.Command.Base.{CaseRow}
use ehfconcept.Cases.Db.{is_case, find_case, clashes_with, advance_row, insert_event}

pub insert_event-appends :
    (p : Platform) (event_id outbox_id : String) (input : EventInput) (s s' : CaseLedger)
    → insert_event p event_id outbox_id input s ≡ ok s'
    → s' ≡ append_case_event p event_id outbox_id input s
unfolding insert_event
insert_event-appends p event_id outbox_id input s s' h = (unless-ok _ _ _ _ h).1

pub find_case-advanced :
    (t c : String) (n : ℕ) (next : Option CaseStatus) (at : String) (rows : List CaseRow)
    (r : CaseRow)
    → find_case t c rows ≡ some r
    → find_case t c (update_rows (advance_row t c n next at) rows)
      ≡ some (record r { case_sequence = n; status = or_else next r.status; updated_at = at })
unfolding find_case update_rows advance_row
find_case-advanced t c n next at [] r h = absurd (cc h)
find_case-advanced t c n next at (x ∷ xs) r h =
    ground (arith, find_case-advanced t c n next at xs r, eq_iff x.tenant_id t, eq_iff x.case_id c)

pub find_case-elsewhere :
    (t c t' c' : String) (n : ℕ) (next : Option CaseStatus) (at : String) (rows : List CaseRow)
    → (t' == t && c' == c) ≡ false
    → find_case t c (update_rows (advance_row t' c' n next at) rows) ≡ find_case t c rows
unfolding find_case update_rows advance_row
find_case-elsewhere t c t' c' n next at [] apart = refl
find_case-elsewhere t c t' c' n next at (x ∷ xs) apart = ground (
  arith,
  find_case-elsewhere t c t' c' n next at xs apart,
  eq_iff x.tenant_id t,
  eq_iff x.case_id c,
  eq_iff x.tenant_id t',
  eq_iff x.case_id c',
  eq_iff t' t,
  eq_iff c' c,
)

pub find_case-new :
    (rows : List CaseRow) (x : CaseRow)
    → find_case x.tenant_id x.case_id rows ≡ none
    → find_case x.tenant_id x.case_id (rows ++ x ∷ []) ≡ some x
unfolding find_case
find_case-new [] x h = ground (arith, eq_iff x.tenant_id x.tenant_id, eq_iff x.case_id x.case_id)
find_case-new (y ∷ ys) x h = ground (arith, find_case-new ys x)

pub find_case-apart :
    (t c : String) (rows : List CaseRow) (x : CaseRow)
    → is_case t c x ≡ false
    → find_case t c (rows ++ x ∷ []) ≡ find_case t c rows
unfolding find_case
find_case-apart t c [] x h = ground arith
find_case-apart t c (y ∷ ys) x h = ground (arith, find_case-apart t c ys x)

pub none-clashes :
    (x : CaseRow) (rows : List CaseRow)
    → is_some (find (clashes_with x) rows) ≡ false
    → find_case x.tenant_id x.case_id rows ≡ none
unfolding find_case
none-clashes x [] h = refl
none-clashes x (y ∷ ys) h = ground (arith, none-clashes x ys)
