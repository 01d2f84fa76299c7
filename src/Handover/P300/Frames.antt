-- ===== src/Handover/P300/Frames.antt =====
-- The checks of the P300 reads (tools/handover_acceleration/coordinator.py) against the telegram that
-- answers a read: they accept the telegrams of the block asked for, and nothing else.
use optolink.Base.{
  ℕ, ◌+◌, ◌*◌, ◌/◌, ◌%◌, ◌<◌, ◌≡◌, refl, sym, ap, ap₂, ◌∙◌, ◌↔◌, Bool, true, false, ◌&&◌, [], ◌∷◌,
  ◌++◌, arith, ◌==◌, length, All, &&-eq-true, ==_iff,
}
use mathlib.Core.Path.{subst}
use optolink.Handover.{Bytes, sum}
use optolink.Handover.P300.{front, last, has_sum, has_header, payload}

-- What a read of `data` at `addr` with the function `fc` is answered, after the length byte.
abbrev pub telegram : ℕ → ℕ → Bytes → Bytes
telegram fc addr bytes =
    let head : Bytes = 1 ∷ fc ∷ addr / 256 ∷ addr % 256 ∷ length bytes ∷ [] in
    head ++ bytes ++ ((5 + length bytes + sum (head ++ bytes)) % 256 ∷ [])

-- the checks of `read_block`
abbrev pub accepts : ℕ → ℕ → ℕ → Bytes → Bool
accepts fc addr size body =
    has_sum (5 + size) body && has_header fc addr size body && (length (payload body) == size)

front-append : (xs : Bytes) (c : ℕ) → front (xs ++ (c ∷ [])) ≡ xs
front-append [] c = refl
front-append (x ∷ []) c = refl
front-append (x ∷ y ∷ xs) c = ap (λ z. x ∷ z) (front-append (y ∷ xs) c)

last-append : (xs : Bytes) (c : ℕ) → last (xs ++ (c ∷ [])) ≡ c
last-append [] c = refl
last-append (x ∷ []) c = refl
last-append (x ∷ y ∷ xs) c = last-append (y ∷ xs) c

front-last : (x : ℕ) (xs : Bytes) → front (x ∷ xs) ++ (last (x ∷ xs) ∷ []) ≡ x ∷ xs
front-last x [] = refl
front-last x (y ∷ xs) = ap (λ z. x ∷ z) (front-last y xs)

-- an address from its bytes
high : (hi lo addr : ℕ) → lo < 256 → hi * 256 + lo ≡ addr → (hi ≡ addr / 256) × (lo ≡ addr % 256)
high hi lo addr h e = (ground arith, ground arith)

short : (b n : Bool) → (b && false && n) ≡ true → ⊥
short true n h = absurd cc
short false n h = absurd cc

abbrev pub IsTelegram : ℕ → ℕ → ℕ → Bytes → Type 0
IsTelegram fc addr size body =
    (bytes : Bytes) × (length bytes ≡ size) × (body ≡ telegram fc addr bytes)

same : (a b : ℕ) → (a == b) ≡ true → a ≡ b
same a b = (==_iff a b).0

six :
    {a b c d e a' b' c' d' e' : ℕ} {t t' : Bytes}
    → a ≡ a'
    → b ≡ b'
    → c ≡ c'
    → d ≡ d'
    → e ≡ e'
    → t ≡ t'
    → ◌≡◌ {A = Bytes} (a ∷ b ∷ c ∷ d ∷ e ∷ t) (a' ∷ b' ∷ c' ∷ d' ∷ e' ∷ t')
six a b c d e t = ap₂ ◌∷◌ a (ap₂ ◌∷◌ b (ap₂ ◌∷◌ c (ap₂ ◌∷◌ d (ap₂ ◌∷◌ e t))))

-- what an accepted body of more than five bytes says
long :
    (fc addr size a b c d e x : ℕ) (xs : Bytes)
    → d < 256
    → accepts fc addr size (a ∷ b ∷ c ∷ d ∷ e ∷ x ∷ xs) ≡ true
    → IsTelegram fc addr size (a ∷ b ∷ c ∷ d ∷ e ∷ x ∷ xs)
long fc addr size a b c d e x xs hd h =
    let body : Bytes = a ∷ b ∷ c ∷ d ∷ e ∷ x ∷ xs in
    let (t, hn) = &&-eq-true (has_sum (5 + size) body && has_header fc addr size body) _ h in
    let (hs, hh) = &&-eq-true (has_sum (5 + size) body) _ t in
    let (r₁, he) = &&-eq-true (a == 1 && b == fc && (c * 256 + d) == addr) _ hh in
    let (r₂, hc) = &&-eq-true (a == 1 && b == fc) _ r₁ in
    let (ha, hb) = &&-eq-true (a == 1) _ r₂ in
    let (ec, ed) = high c d addr hd (same _ addr hc) in
    let f : Bytes = front (x ∷ xs) in
    let n : length f ≡ size = same (length f) size hn in
    let ea : a ≡ 1 = same a 1 ha in
    let eb : b ≡ fc = same b fc hb in
    let ee : e ≡ length f = same e size he ∙ sym n in
    let sums : (5 + size + (a + (b + (c + (d + (e + sum f))))))
        ≡ 5 + length f + (1 + (fc + (addr / 256 + (addr % 256 + (length f + sum f))))) =
      omega arith in
    let ends : x ∷ xs
        ≡ f
          ++ ((5 + length f + (1 + (fc + (addr / 256 + (addr % 256 + (length f + sum f)))))) % 256
              ∷ []) =
      sym (front-last x xs)
      ∙ ap (λ z. f ++ (z ∷ [])) (sym (same _ (last (x ∷ xs)) hs) ∙ ap (λ z. z % 256) sums) in
    (f, n, six ea eb ec ed ee ends)

accepted :
    (fc addr size : ℕ) (body : Bytes)
    → 0 < size
    → All (λ b. b < 256) body
    → accepts fc addr size body ≡ true
    → IsTelegram fc addr size body
accepted fc addr size [] pos bytes h = absurd (short (has_sum (5 + size) []) _ h)
accepted fc addr size (a ∷ []) pos bytes h = absurd (short (has_sum (5 + size) (a ∷ [])) _ h)
accepted fc addr size (a ∷ b ∷ []) pos bytes h =
    absurd (short (has_sum (5 + size) (a ∷ b ∷ [])) _ h)
accepted fc addr size (a ∷ b ∷ c ∷ []) pos bytes h =
    absurd (short (has_sum (5 + size) (a ∷ b ∷ c ∷ [])) _ h)
accepted fc addr size (a ∷ b ∷ c ∷ d ∷ []) pos bytes h =
    absurd (short (has_sum (5 + size) (a ∷ b ∷ c ∷ d ∷ [])) _ h)
accepted fc addr size (a ∷ b ∷ c ∷ d ∷ e ∷ []) pos bytes h =
    let n =
      &&-eq-true
        (has_sum (5 + size) (a ∷ b ∷ c ∷ d ∷ e ∷ [])
          && has_header fc addr size (a ∷ b ∷ c ∷ d ∷ e ∷ []))
        _ h in
    absurd (ground (arith, same 0 size n.1))
accepted fc addr size (a ∷ b ∷ c ∷ d ∷ e ∷ x ∷ xs) pos bytes h =
    long fc addr size a b c d e x xs bytes.1.1.1.0 h

both : {a b : Bool} → a ≡ true → b ≡ true → (a && b) ≡ true
both {a} {b} h k = rw (h, k)

equal : (a b : ℕ) → a ≡ b → (a == b) ≡ true
equal a b = (==_iff a b).1

telegram-accepted :
    (fc addr : ℕ) (bytes : Bytes) → accepts fc addr (length bytes) (telegram fc addr bytes) ≡ true
telegram-accepted fc addr bytes =
    let head : Bytes = 1 ∷ fc ∷ addr / 256 ∷ addr % 256 ∷ length bytes ∷ [] in
    let c : ℕ = (5 + length bytes + sum (head ++ bytes)) % 256 in
    let sums : ℕ → ℕ = λ n. (5 + length bytes + n) % 256 in
    both
      (both
        (equal _ _ (
          ap (λ z. sums (sum z)) (front-append (head ++ bytes) c)
          ∙ sym (last-append (head ++ bytes) c)))
        (both (both (both (equal 1 1 refl) (equal fc fc refl)) (equal _ addr (omega arith)))
          (equal (length bytes) (length bytes) refl)))
      (equal _ _ (ap length (front-append bytes c)))

-- The checks of a P300 read, on bytes, accept exactly the telegrams of the function, the address and
-- the count that were asked for, with a right sum: an accepted body is the telegram of its payload,
-- and the telegram of any payload of that size is accepted.
pub accepts_iff :
    (fc addr size : ℕ) (body : Bytes)
    → 0 < size
    → All (λ b. b < 256) body
    → (accepts fc addr size body ≡ true) ↔ IsTelegram fc addr size body
accepts_iff fc addr size body pos bytes = (
  accepted fc addr size body pos bytes,
  λ (bs, n, e).
      subst (λ b. accepts fc addr size b ≡ true) (sym e)
        (subst (λ k. accepts fc addr k (telegram fc addr bs) ≡ true) n
          (telegram-accepted fc addr bs)),
)
