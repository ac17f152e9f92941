-- ===== src/Protocol/Assembly/Copies.antt =====
-- Copies into one buffer, at places that do not overlap, commute.
use p2p_watcher.Base.{
  ℕ, ◌+◌, ◌-◌, ◌≤◌, ◌≡◌, refl, sym, List, ◌++◌, length, take, drop, length-append, length-take,
  length-drop, drop-append, take-length-append, drop-length-append, take-append-drop, append_assoc,
  le→leb, done, ◌>>=◌, arith, ◌⊎◌, inl, inr,
}
use p2p_watcher.Protocol.Assembly.{copy_into}

-- A copy over part of a buffer replaces that part.
copy_into-part :
    (pre old post xs : List ℕ)
    → length old ≡ length xs
    → copy_into (pre ++ (old ++ post)) (length pre) xs ≡ done (pre ++ (xs ++ post))
unfolding copy_into
copy_into-part pre old post xs e =
    let fits : length pre + length xs ≤ length (pre ++ (old ++ post)) =
      omega (arith, length-append pre (old ++ post), length-append old post) in
    rw
      (
        le→leb _ _ fits,
        take-length-append pre (old ++ post),
        drop-append pre (old ++ post) (length xs),
        ← e,
        drop-length-append old post,
      )
      refl

-- A buffer of five parts, with the second and the fourth of the lengths of `xs` and `ys`.
pub record Parts (xs ys buf : List ℕ) (i j : ℕ) : Type 0 where
  pub start : List ℕ
  first : List ℕ
  gap : List ℕ
  second : List ℕ
  rest : List ℕ
  whole : buf ≡ start ++ (first ++ (gap ++ (second ++ rest)))
  at_first : length start ≡ i
  at_second : length (start ++ (first ++ gap)) ≡ j
  first_fits : length first ≡ length xs
  second_fits : length second ≡ length ys

cut :
    (xs ys buf : List ℕ) (i j : ℕ)
    → i + length xs ≤ j
    → j + length ys ≤ length buf
    → Parts xs ys buf i j
cut xs ys buf i j h k =
    let after = drop i buf in
    let after' = drop (length xs) after in
    let after'' = drop (j - (i + length xs)) after' in
    record {
      start = take i buf;
      first = take (length xs) after;
      gap = take (j - (i + length xs)) after';
      second = take (length ys) after'';
      rest = drop (length ys) after'';
      whole =
          rw
            (
              take-append-drop (length ys) after'',
              take-append-drop (j - (i + length xs)) after',
              take-append-drop (length xs) after,
              take-append-drop i buf,
            )
            refl;
      at_first = omega (arith, length-take i buf);
      at_second = omega (
        arith,
        length-append (take i buf) (take (length xs) after ++ take (j - (i + length xs)) after'),
        length-append (take (length xs) after) (take (j - (i + length xs)) after'),
        length-take i buf,
        length-drop i buf,
        length-take (length xs) after,
        length-drop (length xs) after,
        length-take (j - (i + length xs)) after',
      );
      first_fits = omega (arith, length-take (length xs) after, length-drop i buf);
      second_fits = omega (
        arith,
        length-take (length ys) after'',
        length-drop (j - (i + length xs)) after',
        length-drop (length xs) after,
        length-drop i buf,
      );
    }

regroup : (s x g t : List ℕ) → s ++ (x ++ (g ++ t)) ≡ (s ++ (x ++ g)) ++ t
regroup s x g t = simp append_assoc

-- The second of the two parts is replaced.
copy_second :
    (s x g old post ys : List ℕ) (j : ℕ)
    → length (s ++ (x ++ g)) ≡ j
    → length old ≡ length ys
    → copy_into (s ++ (x ++ (g ++ (old ++ post)))) j ys ≡ done (s ++ (x ++ (g ++ (ys ++ post))))
copy_second s x g old post ys j at fits =
    rw (regroup s x g (old ++ post), regroup s x g (ys ++ post), ← at)
      (copy_into-part (s ++ (x ++ g)) old post ys fits)

module _ (xs ys buf : List ℕ) (i j : ℕ) (p : Parts xs ys buf i j) where
  length_second : length (p.start ++ (xs ++ p.gap)) ≡ j
  length_second = omega (
    arith,
    p.at_second,
    p.first_fits,
    length-append p.start (xs ++ p.gap),
    length-append xs p.gap,
    length-append p.start (p.first ++ p.gap),
    length-append p.first p.gap,
  )

  copies_meet :
      (copy_into buf i xs >>= λ b. copy_into b j ys)
      ≡ (copy_into buf j ys >>= λ b. copy_into b i xs)
  copies_meet =
      rw
        (
          p.whole,
          ← p.at_first,
          copy_into-part p.start p.first (p.gap ++ (p.second ++ p.rest)) xs p.first_fits,
          copy_second p.start xs p.gap p.second p.rest ys j length_second p.second_fits,
          copy_second p.start p.first p.gap p.second p.rest ys j p.at_second p.second_fits,
          copy_into-part p.start p.first (p.gap ++ (ys ++ p.rest)) xs p.first_fits,
        )
        refl

-- Copies to places that do not overlap, inside the buffer, can be made in either order.
pub copies_commute :
    (buf xs ys : List ℕ) (i j : ℕ)
    → i + length xs ≤ length buf
    → j + length ys ≤ length buf
    → (i + length xs ≤ j) ⊎ (j + length ys ≤ i)
    → (copy_into buf i xs >>= λ b. copy_into b j ys)
      ≡ (copy_into buf j ys >>= λ b. copy_into b i xs)
copies_commute buf xs ys i j h k (inl before) =
    copies_meet xs ys buf i j (cut xs ys buf i j before k)
copies_commute buf xs ys i j h k (inr before) =
    sym (copies_meet ys xs buf j i (cut ys xs buf j i before h))

pub length-copy_into :
    (buf xs : List ℕ) (i : ℕ)
    → i + length xs ≤ length buf
    → (b : List ℕ) × (copy_into buf i xs ≡ done b) × (length b ≡ length buf)
unfolding copy_into
length-copy_into buf xs i h = (
  take i buf ++ (xs ++ drop (i + length xs) buf),
  rw (le→leb _ _ h) refl,
  omega (
    arith,
    length-append (take i buf) (xs ++ drop (i + length xs) buf),
    length-append xs (drop (i + length xs) buf),
    length-take i buf,
    length-drop (i + length xs) buf,
  ),
)
