-- ===== src/Policy/History/Recent.antt =====
-- What the history holds after any run of Record.
use mathlib.Core.List.{tail}
use trollbridge.Prelude.{
  ℕ, zero, suc, ◌-◌, ◌≤◌, ◌<◌, ◌≡◌, refl, sym, ap, ◌∙◌, inl, inr, Bool-cases, true, false, List, [],
  ◌∷◌, ◌++◌, arith, leb, if◌then◌else◌, length, length-append,
}
use mathlib.Core.List.{append-nil, append_assoc}
use trollbridge.Types.{RequestEvent, Decision}
use trollbridge.Policy.History.{
  HistoryEntry, History, new_history, from_advisor, make_room, record_decision,
}

-- One call of Record.
pub record Event : Type 0 where
  pub request : RequestEvent
  pub decision : Decision
  pub when : ℕ

abbrev pub record_all : History → List Event → History
record_all h [] = h
record_all h (v ∷ vs) = record_all (record_decision h v.request v.decision v.when) vs

abbrev pub entry_of : Event → HistoryEntry
entry_of v = record {
  when = v.when;
  identity_id = v.request.identity_id;
  host = v.request.host;
  effect = v.decision.effect;
  rule_id = v.decision.rule_id;
}

-- The entries that a run leaves if nothing were dropped: all but the advisor's.
abbrev pub entries : List Event → List HistoryEntry
entries [] = []
entries (v ∷ vs) = if from_advisor v.decision.source then entries vs else entry_of v ∷ entries vs

abbrev pub drop {ℓ} : {A : Type ℓ} → ℕ → List A → List A
drop zero xs = xs
drop (suc n) [] = []
drop (suc n) (x ∷ xs) = drop n xs

-- The last `n` elements.
abbrev pub last_of {ℓ} : {A : Type ℓ} → ℕ → List A → List A
last_of n xs = drop (length xs - n) xs

module _ {ℓ} {A : Type ℓ} where
  drop-append : (n : ℕ) (xs ys : List A) → n ≤ length xs → drop n (xs ++ ys) ≡ drop n xs ++ ys
  drop-append zero xs ys h = refl
  drop-append (suc n) [] ys h = absurd (omega arith)
  drop-append (suc n) (x ∷ xs) ys h = drop-append n xs ys (omega arith)

  drop-suc : (n : ℕ) (xs : List A) → drop (suc n) xs ≡ tail (drop n xs)
  drop-suc zero [] = refl
  drop-suc zero (x ∷ xs) = refl
  drop-suc (suc n) [] = refl
  drop-suc (suc n) (x ∷ xs) = drop-suc n xs

  length-drop : (n : ℕ) (xs : List A) → length (drop n xs) ≡ length xs - n
  length-drop zero xs = omega arith
  length-drop (suc n) [] = omega arith
  length-drop (suc n) (x ∷ xs) = omega (arith, length-drop n xs)

  last_of-append_full :
      (n : ℕ) (xs ys : List A)
      → n ≤ length xs
      → length ys ≡ 1
      → 0 < n
      → last_of n (xs ++ ys) ≡ tail (last_of n xs) ++ ys
  last_of-append_full n xs ys h one pos_n =
      let count : length (xs ++ ys) - n ≡ suc (length xs - n) =
        omega (arith, length-append xs ys) in
      rw (count, ← drop-suc (length xs - n) xs)
        (drop-append (suc (length xs - n)) xs ys (omega arith))

  last_of-all : (n : ℕ) (xs : List A) → length xs ≤ n → last_of n xs ≡ xs
  last_of-all n xs h = let none_dropped : length xs - n ≡ 0 = omega arith in rw none_dropped

make_room-last_of :
    (cap : ℕ) (xs : List HistoryEntry) (e : HistoryEntry)
    → 0 < cap
    → make_room cap (last_of cap xs) ++ e ∷ [] ≡ last_of cap (xs ++ e ∷ [])
unfolding make_room
make_room-last_of cap xs e h = elim (Bool-cases (leb cap (length xs))) [
  | inl full ↦
      let shown : leb cap (length (last_of cap xs)) ≡ true =
        ground (arith, length-drop (length xs - cap) xs) in
      rw shown (sym (last_of-append_full cap xs (e ∷ []) (ground arith) refl h))
  | inr room ↦
      let shown : leb cap (length (last_of cap xs)) ≡ false =
        ground (arith, length-drop (length xs - cap) xs) in
      rw shown (
        ap (λ (t : List HistoryEntry). t ++ e ∷ []) (last_of-all cap xs (ground arith))
        ∙ sym (last_of-all cap (xs ++ e ∷ []) (ground (arith, length-append xs (e ∷ [])))))
]

record-advisor :
    (h : History) (v : Event)
    → from_advisor v.decision.source ≡ true
    → record_decision h v.request v.decision v.when ≡ h
unfolding record_decision
record-advisor h v e = rw e

record-other :
    (h : History) (v : Event)
    → from_advisor v.decision.source ≡ false
    → let h' = record_decision h v.request v.decision v.when in
      (h'.buf ≡ make_room h.cap h.buf ++ entry_of v ∷ []) × (h'.cap ≡ h.cap)
unfolding record_decision
record-other h v e = (rw e, rw e)

record_all-last_of :
    (h : History) (room : ℕ) (xs : List HistoryEntry) (vs : List Event)
    → 0 < room
    → h.cap ≡ room
    → h.buf ≡ last_of room xs
    → (record_all h vs).buf ≡ last_of room (xs ++ entries vs)
record_all-last_of h room xs [] p c q = q ∙ ap (last_of room) (sym (append-nil xs))
record_all-last_of h room xs (v ∷ vs) p c q = elim (Bool-cases (from_advisor v.decision.source)) [
  | inl advisor ↦ rw advisor (
      ap (λ (g : History). (record_all g vs).buf) (record-advisor h v advisor)
      ∙ record_all-last_of h room xs vs p c q)
  | inr other ↦
      let (buf, same) = record-other h v other in
      let ih =
        record_all-last_of (record_decision h v.request v.decision v.when) room
          (xs ++ entry_of v ∷ []) vs p (same ∙ c)
          (buf
            ∙ ap (λ (n : ℕ). make_room n h.buf ++ entry_of v ∷ []) c
            ∙ ap (λ (t : List HistoryEntry). make_room room t ++ entry_of v ∷ []) q
            ∙ make_room-last_of room xs (entry_of v) p) in
      rw other (ih ∙ ap (last_of room) (append_assoc xs (entry_of v ∷ []) (entries vs)))
]

new_history-cap : (n : ℕ) → 0 < n → (new_history n).cap ≡ n
unfolding new_history
new_history-cap n h = ground arith

-- After any run of calls of Record on a new history of a positive capacity, the buffer holds the
-- last `capacity` of the decisions that did not come from the advisor, oldest first.
pub record_all-new :
    (n : ℕ) (vs : List Event) → 0 < n → (record_all (new_history n) vs).buf ≡ last_of n (entries vs)
unfolding new_history
record_all-new n vs h =
    record_all-last_of (new_history n) n [] vs h (new_history-cap n h)
      (sym (last_of-all {A = HistoryEntry} n [] (omega arith)))
