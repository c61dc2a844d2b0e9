-- ===== src/Server/OpenMode/Presses.antt =====
-- How long a run of presses opens the window.
use trollbridge.Prelude.{
  ℕ, zero, suc, ◌+◌, ◌*◌, ◌<◌, ◌≤◌, ◌≡◌, ◌∙◌, ap, List, [], ◌∷◌, arith, ltb, length, All,
}
use trollbridge.Server.OpenMode.{OpenMode, minute, increment, extend, state}

-- The minutes that the issue's schedule 1, +1, +3, +5, +20, +30, +30, ... adds up to.
abbrev pub total_minutes : ℕ → ℕ
total_minutes zero = 0
total_minutes (suc zero) = 1
total_minutes (suc (suc zero)) = 2
total_minutes (suc (suc (suc zero))) = 5
total_minutes (suc (suc (suc (suc zero)))) = 10
total_minutes (suc (suc (suc (suc (suc zero))))) = 30
total_minutes (suc (suc (suc (suc (suc (suc n)))))) = 60 + 30 * n

unfoldable pub press_all : List ℕ → OpenMode → OpenMode
press_all [] o = o
press_all (now ∷ ts) o = press_all ts (extend now o)

total-increment : (k : ℕ) → total_minutes k * minute + increment k ≡ total_minutes (suc k) * minute
unfolding increment
total-increment zero = omega arith
total-increment (suc zero) = omega arith
total-increment (suc (suc zero)) = omega arith
total-increment (suc (suc (suc zero))) = omega arith
total-increment (suc (suc (suc (suc zero)))) = omega arith
total-increment (suc (suc (suc (suc (suc zero))))) = omega arith
total-increment (suc (suc (suc (suc (suc (suc n)))))) = ground arith

extend-open :
    (now t k : ℕ) (o : OpenMode)
    → now < o.until
    → o.until ≡ t + total_minutes k * minute
    → o.press_count ≡ k
    → (extend now o).until ≡ t + total_minutes (suc k) * minute
unfolding extend
extend-open now t k o h u p = ground (arith, h, u, p, total-increment k)

extend-count :
    (now : ℕ) (o : OpenMode) → now < o.until → (extend now o).press_count ≡ suc o.press_count
unfolding extend
extend-count now o h = ground (arith, h)

extend-grows : (now : ℕ) (o : OpenMode) → now < o.until → o.until ≤ (extend now o).until
unfolding extend
extend-grows now o h = ground (arith, h)

presses :
    (t k : ℕ) (ts : List ℕ) (o : OpenMode)
    → All (λ now. now < t + minute) ts
    → t + minute ≤ o.until
    → o.until ≡ t + total_minutes k * minute
    → o.press_count ≡ k
    → (press_all ts o).until ≡ t + total_minutes (length ts + k) * minute
unfolding press_all
presses t k [] o h l u p = u ∙ ap (λ n. t + total_minutes n * minute) (ground arith)
presses t k (now ∷ ts) o (h, hs) l u p =
    let open_now : now < o.until = omega (arith, h, l) in
    let rest =
      presses t (suc k) ts (extend now o) hs (omega (arith, l, extend-grows now o open_now))
        (extend-open now t k o open_now u p) (extend-count now o open_now ∙ ap suc p) in
    let same : length ts + suc k ≡ suc (length ts) + k = omega arith in
    rest ∙ ap (λ n. t + total_minutes n * minute) same

extend-lapsed : (t : ℕ) (o : OpenMode) → o.until ≤ t → (extend t o).until ≡ t + minute
unfolding extend increment
extend-lapsed t o l = ground (arith, l)

extend-first : (t : ℕ) (o : OpenMode) → o.until ≤ t → (extend t o).press_count ≡ 1
unfolding extend
extend-first t o l = ground (arith, l)

-- A press at t when the window has lapsed, and more presses within the minute that it opens, open the
-- window up to t and the total of the schedule for the number of presses: 1, 2, 5, 10, 30, 60
-- minutes, and 30 more for each press after the sixth. At every time before, the window is open.
pub press_all-total :
    (t : ℕ) (o : OpenMode) (ts : List ℕ)
    → o.until ≤ t
    → All (λ now. now < t + minute) ts
    → let opened = press_all ts (extend t o) in
      (opened.until ≡ t + total_minutes (suc (length ts)) * minute)
      × ((now : ℕ) → (state opened now).0 ≡ ltb now (t + total_minutes (suc (length ts)) * minute))
unfolding state
press_all-total t o ts l h =
    let first : (extend t o).until ≡ t + minute = extend-lapsed t o l in
    let total =
      presses t 1 ts (extend t o) h (omega (arith, first)) (omega (arith, first))
        (extend-first t o l) in
    let same : length ts + 1 ≡ suc (length ts) = omega arith in
    let until = total ∙ ap (λ n. t + total_minutes n * minute) same in
    (until, λ now. ap (ltb now) until)
