-- ===== src/Protocol/Pipe/Window.antt =====
-- Windows of a buffer: a stretch of it, and what is written behind it.
use prospero_ai.Prelude.{
  ℕ, zero, suc, ◌+◌, ◌≤◌, ◌≡◌, refl, sym, ap, ◌∙◌, List, [], ◌∷◌, ◌++◌, length, length-append,
  length-take, length-drop, take, take-append, take_all, drop, drop-append, arith,
}
use mathlib.Core.List.{append_assoc}

pub take-sum : (h l : ℕ) (xs : List ℕ) → take (h + l) xs ≡ take h xs ++ take l (drop h xs)
take-sum zero l xs = ap (λ k. take k xs) {x = 0 + l} {y = l} (omega arith)
take-sum (suc h) l [] = take_all [] (suc h + l) (omega arith) ∙ sym (take_all [] l (omega arith))
take-sum (suc h) l (x ∷ xs) =
    ap (λ k. take k (x ∷ xs)) {x = suc h + l} {y = suc (h + l)} (omega arith)
    ∙ ap (λ r. x ∷ r) (take-sum h l xs)

-- Bytes written behind the window [h, h + l) lengthen the window by themselves.
pub window :
    (h l : ℕ) (buf bytes rest : List ℕ)
    → h + l ≤ length buf
    → take (l + length bytes) (drop h (take (h + l) buf ++ (bytes ++ rest)))
      ≡ take l (drop h buf) ++ bytes
window h l buf bytes rest le =
    ap (λ b. take (l + length bytes) (drop h (b ++ (bytes ++ rest)))) (take-sum h l buf)
    ∙ ap (λ b. take (l + length bytes) (drop h b)) (append_assoc (take h buf) kept (bytes ++ rest))
    ∙ ap (take (l + length bytes))
        (drop-append (take h buf) (kept ++ (bytes ++ rest)) h (omega (arith, length-take h buf)))
    ∙ ap (take (l + length bytes)) (sym (append_assoc kept bytes rest))
    ∙ take-append (kept ++ bytes) rest (l + length bytes)
        (omega (arith, length-append kept bytes, length-take l (drop h buf), length-drop h buf))
  where
    kept : List ℕ
    kept = take l (drop h buf)

drop_nil : (n : ℕ) → drop {A = ℕ} n [] ≡ []
drop_nil zero = refl
drop_nil (suc n) = refl

pub drop-sum : (h l : ℕ) (xs : List ℕ) → drop (h + l) xs ≡ drop l (drop h xs)
drop-sum zero l xs = ap (λ k. drop k xs) {x = 0 + l} {y = l} (omega arith)
drop-sum (suc h) l [] = drop_nil (suc h + l) ∙ sym (drop_nil l)
drop-sum (suc h) l (x ∷ xs) =
    ap (λ k. drop k (x ∷ xs)) {x = suc h + l} {y = suc (h + l)} (omega arith) ∙ drop-sum h l xs
