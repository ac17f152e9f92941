-- ===== src/Protocol/Wire/Laws.antt =====
-- Bytes and numbers are inverse in either byte order.
use native.Mathlib.Nat.{
  pow-suc, one-le-pow, div-add-mod, mod-lt, mod-eq_of_lt, add-mul-mod_self_left,
}
use mathlib.Core.List.{reverse-reverse}
use p2p_watcher.Base.{
  ℕ, zero, suc, ◌+◌, ◌*◌, ◌/◌, ◌%◌, ◌^◌, ◌≤◌, ◌<◌, ◌≡◌, refl, sym, ap, ap₂, ◌∙◌, List, [], ◌∷◌,
  ◌++◌, reverse, length, length-append, All-reverse, length-reverse, arith,
}
use p2p_watcher.Protocol.Wire.{
  Endian, little, big, le_bytes, le_value, bytes_of, value_of, htonl, ntohl, IsBytes,
}

length-le_bytes : (w n : ℕ) → length (le_bytes w n) ≡ w
unfolding le_bytes
length-le_bytes zero n = refl
length-le_bytes (suc w) n = ap suc (length-le_bytes w (n / 256))

le_bytes-IsBytes : (w n : ℕ) → IsBytes (le_bytes w n)
unfolding le_bytes
le_bytes-IsBytes zero n = tt
le_bytes-IsBytes (suc w) n = (omega arith, le_bytes-IsBytes w (n / 256))

split : (w n : ℕ) → n % 256 ^ suc w ≡ n % 256 + 256 * (n / 256 % 256 ^ w)
split w n =
    let q : ℕ = n / 256 in
    let p : ℕ = 256 ^ w in
    let pos : 1 ≤ p = one-le-pow w 256 (omega arith) in
    let parts : p * (q / p) + q % p ≡ q = div-add-mod q p in
    let small : q % p < p = mod-lt q pos in
    let whole : n ≡ n % 256 + 256 * (q % p) + p * 256 * (q / p) =
      omega (arith, ap (λ t. 256 * t) parts) in
    rw (pow-suc 256 w) (
      ap (λ t. t % (p * 256)) whole
      ∙ add-mul-mod_self_left (n % 256 + 256 * (q % p)) (p * 256) (q / p)
      ∙ mod-eq_of_lt (omega (arith, small)))

le_value-le_bytes : (w n : ℕ) → le_value (le_bytes w n) ≡ n % 256 ^ w
unfolding le_bytes le_value
le_value-le_bytes zero n = omega arith
le_value-le_bytes (suc w) n = omega (arith, le_value-le_bytes w (n / 256), split w n)

le_bytes-le_value : (bs : List ℕ) → IsBytes bs → le_bytes (length bs) (le_value bs) ≡ bs
unfolding le_bytes le_value
le_bytes-le_value [] h = refl
le_bytes-le_value (b ∷ bs) h =
    ap₂ ◌∷◌ (omega (arith, h.0))
      (ap (le_bytes (length bs)) (omega (arith, h.0)) ∙ le_bytes-le_value bs h.1)

pub length-bytes_of : (e : Endian) (w n : ℕ) → length (bytes_of e w n) ≡ w
unfolding bytes_of
length-bytes_of little w n = length-le_bytes w n
length-bytes_of big w n = length-reverse (le_bytes w n) ∙ length-le_bytes w n

pub length-bytes_of-append :
    (writer : Endian) (n x : ℕ) (ys : List ℕ) → length (bytes_of writer n x ++ ys) ≡ n + length ys
length-bytes_of-append writer n x ys =
    length-append (bytes_of writer n x) ys ∙ ap (λ k. k + length ys) (length-bytes_of writer n x)

pub bytes_of-IsBytes : (e : Endian) (w n : ℕ) → IsBytes (bytes_of e w n)
unfolding bytes_of
bytes_of-IsBytes little w n = le_bytes-IsBytes w n
bytes_of-IsBytes big w n = All-reverse _ (le_bytes w n) (le_bytes-IsBytes w n)

pub value_of-bytes_of : (e : Endian) (w n : ℕ) → value_of e (bytes_of e w n) ≡ n % 256 ^ w
unfolding bytes_of value_of
value_of-bytes_of little w n = le_value-le_bytes w n
value_of-bytes_of big w n = rw reverse-reverse (le_value-le_bytes w n)

pub bytes_of-value_of :
    (e : Endian) (w : ℕ) (bs : List ℕ)
    → length bs ≡ w
    → IsBytes bs
    → bytes_of e w (value_of e bs) ≡ bs
unfolding bytes_of value_of
bytes_of-value_of little w bs h k = rw (← h) (le_bytes-le_value bs k)
bytes_of-value_of big w bs h k =
    ap (λ n. reverse (le_bytes n (le_value (reverse bs)))) (sym h ∙ sym (length-reverse bs))
    ∙ ap reverse (le_bytes-le_value (reverse bs) (All-reverse _ bs k))
    ∙ reverse-reverse bs

-- What lies in memory after htonl is the number in network order, on every host.
pub bytes_of-htonl : (e : Endian) (x : ℕ) → bytes_of e 4 (htonl e x) ≡ bytes_of big 4 x
unfolding htonl
bytes_of-htonl e x =
    bytes_of-value_of e 4 (bytes_of big 4 x) (length-bytes_of big 4 x) (bytes_of-IsBytes big 4 x)

-- A host that reads network order through ntohl has the number back.
pub ntohl-value_of : (e : Endian) (x : ℕ) → ntohl e (value_of e (bytes_of big 4 x)) ≡ x % 2 ^ 32
unfolding ntohl
ntohl-value_of e x =
    rw
      (bytes_of-value_of e 4 (bytes_of big 4 x) (length-bytes_of big 4 x)
        (bytes_of-IsBytes big 4 x))
      (value_of-bytes_of big 4 x)
