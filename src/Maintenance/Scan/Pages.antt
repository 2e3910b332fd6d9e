-- ===== src/Maintenance/Scan/Pages.antt =====
-- Scanning the history of a channel page by page in src/lib/maintenance-service.ts.
use info_room_reservation_si.Prelude.{
  ◌≡◌, refl, sym, ap, ◌∙◌, subst, Bool, false, not, Option, some, List, [], ◌∷◌, ◌++◌, append_assoc,
  Text, text_eq, text_eq_sound, filter, any, Bool-cases, inl, inr, arith,
}
use info_room_reservation_si.TransactionRetry.{distinct}
use info_room_reservation_si.Maintenance.Ledger.{
  RetentionCandidate, Continuation, HistoryMessage, is_boundary, relevant_messages, has_nonce,
  message_ids, last_id, next_continuation,
}

module _ {A : Type 0} (p q : A → Bool) where
  filter_comm : (xs : List A) → filter p (filter q xs) ≡ filter q (filter p xs)
  filter_comm [] = refl
  filter_comm (x ∷ xs) = ground (arith, filter_comm xs)

module _ {A : Type 0} (p : A → Bool) where
  filter-append : (xs ys : List A) → filter p (xs ++ ys) ≡ filter p xs ++ filter p ys
  filter-append [] ys = refl
  filter-append (x ∷ xs) ys = ground (arith, filter-append xs ys)

  filter-filter : (xs : List A) → filter p (filter p xs) ≡ filter p xs
  filter-filter [] = refl
  filter-filter (x ∷ xs) = ground (arith, filter-filter xs)

abbrev other_than : Text → Text → Bool
other_than x k = not (text_eq k x)

filter-same :
    (x y : Text) (zs : List Text)
    → y ≡ x
    → filter (other_than x) (filter (other_than y) zs) ≡ filter (other_than x) zs
filter-same x y zs e =
    subst (λ k. filter (other_than x) (filter (other_than k) zs) ≡ filter (other_than x) zs) (sym e)
      (filter-filter (other_than x) zs)

filter-distinct :
    (x : Text) (xs : List Text)
    → filter (other_than x) (distinct xs) ≡ distinct (filter (other_than x) xs)
unfolding distinct
filter-distinct x [] = refl
filter-distinct x (y ∷ ys) = elim (Bool-cases (text_eq y x)) [
  | inl same ↦
      rw same (filter-same x y (distinct ys) (text_eq_sound y x same) ∙ filter-distinct x ys)
  | inr other ↦ rw other (
      ap (λ zs. y ∷ zs)
        (filter_comm (other_than x) (other_than y) (distinct ys)
          ∙ ap (filter (other_than y)) (filter-distinct x ys)))
]

distinct-append : (xs ys : List Text) → distinct (distinct xs ++ ys) ≡ distinct (xs ++ ys)
unfolding distinct
distinct-append [] ys = refl
distinct-append (x ∷ xs) ys =
    ap (λ zs. x ∷ zs)
      (filter-distinct x (filter (other_than x) (distinct xs) ++ ys)
        ∙ ap distinct (
            filter-append (other_than x) (filter (other_than x) (distinct xs)) ys
            ∙ ap (λ zs. zs ++ filter (other_than x) ys) (filter-filter (other_than x) (distinct xs))
            ∙ sym (filter-append (other_than x) (distinct xs) ys))
        ∙ sym (filter-distinct x (distinct xs ++ ys))
        ∙ ap (filter (other_than x)) (distinct-append xs ys))

message_ids-append :
    (xs ys : List HistoryMessage) → message_ids (xs ++ ys) ≡ message_ids xs ++ message_ids ys
message_ids-append [] ys = refl
message_ids-append (x ∷ xs) ys = ap (λ zs. x.id ∷ zs) (message_ids-append xs ys)

last_id-append :
    (xs ys : List HistoryMessage) (before : Option Text)
    → last_id (xs ++ ys) before ≡ last_id ys (last_id xs before)
last_id-append [] ys before = refl
last_id-append (x ∷ xs) ys before = last_id-append xs ys (some x.id)

relevant_messages-append :
    (boundary : Option Text) (xs ys : List HistoryMessage)
    → any (is_boundary boundary) xs ≡ false
    → relevant_messages boundary (xs ++ ys) ≡ xs ++ relevant_messages boundary ys
unfolding relevant_messages
relevant_messages-append boundary [] ys e = refl
relevant_messages-append boundary (x ∷ xs) ys e =
    ground (arith, relevant_messages-append boundary xs ys)

relevant_messages-whole :
    (boundary : Option Text) (xs : List HistoryMessage)
    → any (is_boundary boundary) xs ≡ false
    → relevant_messages boundary xs ≡ xs
unfolding relevant_messages
relevant_messages-whole boundary [] e = refl
relevant_messages-whole boundary (x ∷ xs) e = ground (arith, relevant_messages-whole boundary xs)

-- What a scan has found, and where it goes on.
abbrev pub SameScan : Continuation → Continuation → Type 0
SameScan a b = (a.matched_message_ids ≡ b.matched_message_ids) × (a.before ≡ b.before)

module _ (candidate : RetentionCandidate) where
  next_continuation-append :
      (previous : Continuation) (page rest : List HistoryMessage)
      → any (is_boundary previous.attempt_boundary) page ≡ false
      → SameScan
          (next_continuation candidate (next_continuation candidate previous page) rest)
          (next_continuation candidate previous (page ++ rest))
  unfolding next_continuation
  next_continuation-append previous page rest e =
      let b = previous.attempt_boundary in
      let found = relevant_messages b rest in
      let nonce = candidate.nonce in
      (
        rw (relevant_messages-append b page rest e) (
            rw (relevant_messages-whole b page e) (
              distinct-append
                (previous.matched_message_ids ++ message_ids (filter (has_nonce nonce) page))
                (message_ids (filter (has_nonce nonce) found))
              ∙ ap distinct (
                  append_assoc previous.matched_message_ids
                    (message_ids (filter (has_nonce nonce) page))
                    (message_ids (filter (has_nonce nonce) found))
                  ∙ ap (λ zs. previous.matched_message_ids ++ zs)
                      (sym (
                          message_ids-append (filter (has_nonce nonce) page)
                            (filter (has_nonce nonce) found))
                        ∙ ap message_ids (sym (filter-append (has_nonce nonce) page found)))))),
        rw (relevant_messages-append b page rest e) (
            rw (relevant_messages-whole b page e)
              (sym (last_id-append page found previous.before))),
      )

  -- Page after page, and their messages in one list.
  unfoldable pub scan_pages : Continuation → List (List HistoryMessage) → Continuation
  scan_pages previous [] = previous
  scan_pages previous (page ∷ pages) = scan_pages (next_continuation candidate previous page) pages

abbrev pub concat : List (List HistoryMessage) → List HistoryMessage
concat [] = []
concat (page ∷ pages) = page ++ concat pages

abbrev pub HasNone : Option Text → List (List HistoryMessage) → Type 0
HasNone boundary [] = Unit
HasNone boundary (page ∷ pages) = (any (is_boundary boundary) page ≡ false) × HasNone boundary pages

module _ (candidate : RetentionCandidate) where
  -- A scan that goes through several pages without the boundary, and then through one more, finds the
  -- same messages and goes on from the same one as it would on a single page with the messages of all.
  pub next_continuation-scan_pages :
      (previous : Continuation) (pages : List (List HistoryMessage)) (last : List HistoryMessage)
      → HasNone previous.attempt_boundary pages
      → SameScan
          (next_continuation candidate (scan_pages candidate previous pages) last)
          (next_continuation candidate previous (concat pages ++ last))
  unfolding scan_pages next_continuation
  next_continuation-scan_pages previous [] last none_here = (refl, refl)
  next_continuation-scan_pages previous (page ∷ pages) last (here, there) =
      let more =
        next_continuation-scan_pages (next_continuation candidate previous page) pages last there in
      let both = next_continuation-append candidate previous page (concat pages ++ last) here in
      rw (append_assoc page (concat pages) last) (more.0 ∙ both.0, more.1 ∙ both.1)
