-- ===== src/Policy/History/Within.antt =====
-- What the prior-decision clause finds in the history.
use mathlib.Core.List.{reverse, reverse-cons}
use trollbridge.Prelude.{
  ℕ, ◌+◌, ◌*◌, ltb, ◌≤◌, ◌≡◌, refl, ◌∙◌, Bool, true, false, not, ◌&&◌, List, [], ◌∷◌, ◌++◌, arith,
  leb, any, any-append, All, All-append,
}
use trollbridge.Prelude.Int.{ℤ, pos}
use trollbridge.Types.{RequestEvent}
use trollbridge.Policy.History.{
  HistoryEntry, History, PriorDecisionMatch, cutoff_offset, int64_of, is_stale, meets, match_newest,
  match_history,
}

-- No entry of the list is newer than the ones before it.
abbrev IsNewestFirst : List HistoryEntry → Type 0
IsNewestFirst [] = Unit
IsNewestFirst (e ∷ es) = All (λ x. x.when ≤ e.when) es × IsNewestFirst es

-- No entry is older than the ones before it.
abbrev pub IsChronological : List HistoryEntry → Type 0
IsChronological [] = Unit
IsChronological (e ∷ es) = All (λ x. e.when ≤ x.when) es × IsChronological es

All-reverse {ℓ κ} : {A : Type ℓ} (P : A → Type κ) (xs : List A) → All P xs → All P (reverse xs)
All-reverse P [] h = tt
All-reverse P (x ∷ xs) (h, hs) =
    rw (reverse-cons x xs) (All-append P (reverse xs) (x ∷ []) (All-reverse P xs hs) (h, tt))

IsNewestFirst-append :
    (xs : List HistoryEntry) (e : HistoryEntry)
    → IsNewestFirst xs
    → All (λ x. e.when ≤ x.when) xs
    → IsNewestFirst (xs ++ e ∷ [])
IsNewestFirst-append [] e n a = (tt, tt)
IsNewestFirst-append (x ∷ xs) e (h, n) (k, a) = (
  All-append (λ (y : HistoryEntry). y.when ≤ x.when) xs (e ∷ []) h (k, tt),
  IsNewestFirst-append xs e n a,
)

IsNewestFirst-reverse : (xs : List HistoryEntry) → IsChronological xs → IsNewestFirst (reverse xs)
IsNewestFirst-reverse [] h = tt
IsNewestFirst-reverse (e ∷ es) (h, hs) = rw (reverse-cons e es) (
    IsNewestFirst-append (reverse es) e (IsNewestFirst-reverse es hs)
      (All-reverse (λ (x : HistoryEntry). e.when ≤ x.when) es h))

any-reverse {ℓ} : {A : Type ℓ} (p : A → Bool) (xs : List A) → any p (reverse xs) ≡ any p xs
any-reverse p [] = refl
any-reverse p (x ∷ xs) =
    rw (reverse-cons x xs) (ground (arith, any-append p (reverse xs) (x ∷ []), any-reverse p xs))

is_stale_mono :
    (now : ℕ) (w : ℤ) (e x : HistoryEntry)
    → x.when ≤ e.when
    → is_stale now w e ≡ true
    → is_stale now w x ≡ true
unfolding is_stale
is_stale_mono now w e x h k = ground (arith, h, k)

-- A window of up to 292 years does not wrap round.
is_stale-within :
    (now s : ℕ) (e : HistoryEntry)
    → s ≤ 9_223_372_036
    → is_stale now (pos s) e ≡ ltb (e.when + s * 1_000_000_000) now
unfolding is_stale cutoff_offset int64_of
is_stale-within now s e h = ground (arith, h)

-- The test that an entry has to pass.
abbrev pub counts : RequestEvent → PriorDecisionMatch → ℕ → HistoryEntry → Bool
counts req m now e = not (is_stale now m.within_seconds e) && meets req m e

-- The entry is at most `s` seconds old, and meets the criteria.
abbrev pub recent : RequestEvent → PriorDecisionMatch → ℕ → ℕ → HistoryEntry → Bool
recent req m s now e = leb now (e.when + s * 1_000_000_000) && meets req m e

any-recent :
    (req : RequestEvent) (m : PriorDecisionMatch) (s now : ℕ) (es : List HistoryEntry)
    → m.within_seconds ≡ pos s
    → s ≤ 9_223_372_036
    → any (counts req m now) es ≡ any (recent req m s now) es
any-recent req m s now [] p h = refl
any-recent req m s now (e ∷ es) p h =
    rw (p, is_stale-within now s e h, ← any-recent req m s now es p h) (ground arith)

none-counts :
    (req : RequestEvent) (m : PriorDecisionMatch) (now : ℕ) (e : HistoryEntry)
    (es : List HistoryEntry)
    → is_stale now m.within_seconds e ≡ true
    → All (λ x. x.when ≤ e.when) es
    → any (counts req m now) es ≡ false
none-counts req m now e [] s h = refl
none-counts req m now e (x ∷ es) s (h, hs) =
    ground (arith, is_stale_mono now m.within_seconds e x h, none-counts req m now e es s hs)

match_newest-any :
    (req : RequestEvent) (m : PriorDecisionMatch) (now : ℕ) (es : List HistoryEntry)
    → IsNewestFirst es
    → match_newest req m now es ≡ any (counts req m now) es
unfolding match_newest
match_newest-any req m now [] h = refl
match_newest-any req m now (e ∷ es) (h, hs) =
    ground (arith, none-counts req m now e es, match_newest-any req m now es hs)

-- Where the entries were recorded in the order of their times and the window is of 0 to 9223372036
-- seconds, the early stop loses nothing: the clause holds exactly if some entry of the buffer is at
-- most that many seconds older than now and meets the criteria.
pub match_history-any :
    (h : History) (req : RequestEvent) (m : PriorDecisionMatch) (s now : ℕ)
    → IsChronological h.buf
    → m.within_seconds ≡ pos s
    → s ≤ 9_223_372_036
    → match_history h req m now ≡ any (recent req m s now) h.buf
unfolding match_history
match_history-any h req m s now c p bound =
    match_newest-any req m now (reverse h.buf) (IsNewestFirst-reverse h.buf c)
    ∙ any-reverse (counts req m now) h.buf
    ∙ any-recent req m s now h.buf p bound
