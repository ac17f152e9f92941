-- ===== src/Protocol/Reader/Laws.antt =====
-- `Reads limit m xs a`: at any place of a buffer where the bytes `xs` stand, `m` returns `a` and
-- leaves the offset behind them, if the offset does not wrap there.
use p2p_watcher.Base.{
  ℕ, ◌+◌, ◌^◌, ◌<◌, ◌≤◌, ◌≡◌, refl, ap, ◌∙◌, subst, List, [], ◌++◌, length, length-append,
  take-length-append, drop-length-append, append_assoc, done, le→leb, arith,
}
use p2p_watcher.Protocol.Wire.{Endian, big, bytes_of, value_of, htonl, ntohl}
use p2p_watcher.Protocol.Wire.Laws.{length-bytes_of, bytes_of-htonl, ntohl-value_of}
use native.Mathlib.Nat.{mod-eq_of_lt}
use p2p_watcher.Protocol.Reader.{Reader, pure, ◌>>=◌, run, next, next_number, next_net}

pub record Reads {A : Type 0} (limit : ℕ) (m : Reader A) (xs : List ℕ) (a : A) : Type 0 where
  pub apply :
      (pre rest : List ℕ)
      → length pre + length xs < limit
      → m (pre ++ (xs ++ rest)) (length pre) ≡ done (a, length pre + length xs)

module _ (limit : ℕ) where
  pub Reads-next : (n : ℕ) (xs : List ℕ) → length xs ≡ n → Reads limit (next limit n) xs xs
  unfolding next
  Reads-next n xs e = record { apply = at_place }
    where
      at_place :
          (pre rest : List ℕ)
          → length pre + length xs < limit
          → next limit n (pre ++ (xs ++ rest)) (length pre) ≡ done (xs, length pre + length xs)
      at_place pre rest h =
          let fits : length pre + n ≤ length (pre ++ (xs ++ rest)) =
            omega (arith, e, length-append pre (xs ++ rest), length-append xs rest) in
          rw
            (
              le→leb _ _ fits,
              drop-length-append pre (xs ++ rest),
              ← e,
              take-length-append xs rest,
              mod-eq_of_lt h,
            )
            refl

  pub Reads-bind :
      {A B : Type 0} {m : Reader A} (f : A → Reader B) {xs ys : List ℕ} {a : A} {b : B}
      → Reads limit m xs a
      → Reads limit (f a) ys b
      → Reads limit (m >>= f) (xs ++ ys) b
  Reads-bind {m} f {xs} {ys} {a} {b} r s = record { apply = at_place }
    where
      at_place :
          (pre rest : List ℕ)
          → length pre + length (xs ++ ys) < limit
          → (m >>= f) (pre ++ ((xs ++ ys) ++ rest)) (length pre)
            ≡ done (b, length pre + length (xs ++ ys))
      at_place pre rest h =
          let sum = length-append xs ys in
          let after_xs = s.apply (pre ++ xs) rest (omega (arith, sum, length-append pre xs, h)) in
          rw
            (
              append_assoc xs ys rest,
              r.apply pre (ys ++ rest) (omega (arith, sum, h)),
              ◌>>=◌,
              append_assoc xs ys rest,
              sum,
            )
            ((rw (append_assoc pre xs (ys ++ rest), length-append pre xs) at after_xs)
              ∙ ap (λ n. done (b, n)) (omega arith))

  pub Reads-pure : {A : Type 0} (a : A) → Reads limit (pure a) [] a
  Reads-pure a = record { apply = λ pre rest h. ap (λ n. done (a, n)) (omega arith) }

  -- The last read of a decoder, and what it makes of it.
  pub Reads-map :
      {A B : Type 0} {m : Reader A} (g : A → B) {xs : List ℕ} {a : A}
      → Reads limit m xs a
      → Reads limit (m >>= λ x. pure (g x)) xs (g a)
  Reads-map g r = record { apply = λ pre rest h. rw (r.apply pre rest h, ◌>>=◌) refl }

  -- A decoder run on a whole buffer, whatever stands behind the bytes that it reads.
  pub run-Reads :
      {A : Type 0} {m : Reader A} {xs : List ℕ} {a : A} (rest : List ℕ)
      → Reads limit m xs a
      → length xs < limit
      → run m (xs ++ rest) ≡ done a
  run-Reads rest r h = rw (r.apply [] rest (omega arith)) refl

  module _ (host : Endian) where
    pub Reads-number :
        (n x : ℕ) (writer : Endian)
        → Reads limit
            (next_number limit host n)
            (bytes_of writer n x)
            (value_of host (bytes_of writer n x))
    unfolding next_number
    Reads-number n x writer =
        Reads-map (value_of host) (Reads-next n (bytes_of writer n x) (length-bytes_of writer n x))

    pub Reads-net :
        (x : ℕ) (writer : Endian)
        → x < 2 ^ 32
        → Reads limit (next_net limit host) (bytes_of writer 4 (htonl writer x)) x
    unfolding next_net
    Reads-net x writer h = rw (bytes_of-htonl writer x) (
        subst (Reads limit (next_net limit host) (bytes_of big 4 x))
          (ntohl-value_of host x ∙ mod-eq_of_lt h)
          (Reads-map (λ bytes. ntohl host (value_of host bytes))
            (Reads-next 4 (bytes_of big 4 x) (length-bytes_of big 4 x))))
