-- ===== src/Pipe/Window.antt =====
-- The bytes in a pipe, oldest first, and what the two copy loops of fs/pipe.c do to them.
use liha_linux.Base.{
  ◌%◌, ◌+◌, ◌++◌, ◌<◌, List, [], ap, arith, length, refl, suc, update, zero, ℕ, ◌∙◌, ◌∷◌, ◌≡◌, ◌≤◌,
  ◌⊎◌,
}
use mathlib.Core.Path.{ap₂}
use liha_linux.Pipe.{page_size, copy_out, copy_in}

-- `n` bytes of the page from `t` on, round the end.
unfoldable pub window : (ℕ → ℕ) → ℕ → ℕ → List ℕ
window page t zero = []
window page t (suc n) = page t ∷ window page ((t + 1) % page_size) n

-- Equal starts and equal lengths give equal windows.
pub cong_window : (page : ℕ → ℕ) {t u n m : ℕ} → t ≡ u → n ≡ m → window page t n ≡ window page u m
cong_window page p q = ap₂ (window page) p q

window_step :
    (page : ℕ → ℕ) (t k n : ℕ)
    → t < page_size
    → k ≡ suc n
    → window page (t % page_size) k ≡ page t ∷ window page ((t + 1) % page_size) n
unfolding window
window_step page t k n h e = let here : t % page_size ≡ t = omega arith in rw (e, here)

pub window-copy_out :
    (page : ℕ → ℕ) (t n m : ℕ)
    → t + n ≤ page_size
    → window page (t % page_size) (n + m) ≡ copy_out page t n ++ window page ((t + n) % page_size) m
unfolding copy_out
window-copy_out page t zero m k = cong_window page (omega arith) (omega arith)
window-copy_out page t (suc n) m k =
    window_step page t (suc n + m) (n + m) (omega arith) (omega arith)
    ∙ ap (λ l. page t ∷ l)
        (window-copy_out page (t + 1) n m (omega arith)
          ∙ ap (λ l. copy_out page (t + 1) n ++ l) (cong_window page (omega arith) refl))

pub window-append :
    (page : ℕ → ℕ) (t n m : ℕ)
    → t < page_size
    → window page t (n + m) ≡ window page t n ++ window page ((t + n) % page_size) m
unfolding window
window-append page t zero m h = cong_window page (omega arith) (omega arith)
window-append page t (suc n) m h =
    cong_window page (omega arith) refl
    ∙ window_step page t (suc n + m) (n + m) h (omega arith)
    ∙ ap (λ l. page t ∷ l)
        (window-append page ((t + 1) % page_size) n m (omega arith)
          ∙ ap (λ l. window page ((t + 1) % page_size) n ++ l)
              (cong_window page (omega arith) refl))

pub window_same :
    (f g : ℕ → ℕ) (t n : ℕ)
    → t < page_size
    → ((i : ℕ) → i < n → f ((t + i) % page_size) ≡ g ((t + i) % page_size))
    → window f t n ≡ window g t n
unfolding window
window_same f g t zero h same = refl
window_same f g t (suc n) h same =
    ap₂ ◌∷◌ (let e : (t + 0) % page_size ≡ t = omega arith in rw e at (same 0 (omega arith))) (
      window_same f g ((t + 1) % page_size) n (omega arith) (λ i k.
        let e : (t + suc i) % page_size ≡ ((t + 1) % page_size + i) % page_size = omega arith in
        rw e at (same (suc i) (omega arith))))

pub copy_in_outside :
    (page : ℕ → ℕ) (i : ℕ) (xs : List ℕ) (j : ℕ)
    → (j < i) ⊎ (i + length xs ≤ j)
    → copy_in page i xs j ≡ page j
unfolding copy_in
copy_in_outside page i [] j h = refl
copy_in_outside page i (x ∷ xs) j h =
    copy_in_outside (update page i x) (i + 1) xs j (omega arith) ∙ ground arith

pub copy_out-copy_in :
    (page : ℕ → ℕ) (i : ℕ) (xs : List ℕ) → copy_out (copy_in page i xs) i (length xs) ≡ xs
unfolding copy_in copy_out
copy_out-copy_in page i [] = refl
copy_out-copy_in page i (x ∷ xs) =
    ap₂ ◌∷◌ (copy_in_outside (update page i x) (i + 1) xs i (omega arith) ∙ ground arith)
      (copy_out-copy_in (update page i x) (i + 1) xs)
