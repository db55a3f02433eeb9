-- ===== src/Assessment/Chunks.antt =====
-- src/assessment_progress.cpp, Feed: the records do not depend on how the bytes are cut into reads.
use thunderden.Base.{
  ℕ, zero, suc, ◌+◌, ◌-◌, ◌≤◌, ◌<◌, ◌≡◌, refl, sym, ap, ◌∙◌, false, [], ◌∷◌, ◌++◌, ◌==◌,
  if◌then◌else◌, length, take, drop, take-append-drop, length-drop, ◌&&◌, length-append,
  append_assoc, Result, ok, err, ◌>>=◌, ◌>>◌, require, Bytes, arith, get_or, leb, Ensures,
  Ensures-weaken, returns, Ensures-bind, Ensures-require, Ensures-if, Ensures-value,
}
use thunderden.Assessment.{
  Wire, Progress, max_records, is_input, is_check, is_result, is_counter, current, group,
  record_size, take_record, input_update, check_update, feed_from, feed, set_result, parse,
}

module _ (wire : Wire) where
  -- The description to compare with: one byte at a time.
  abbrev pub feed_byte : Progress wire → ℕ → Result (Progress wire)
  feed_byte p c =
      let p' : Progress wire = record p { pending = p.pending ++ (c ∷ []) } in
      if length p'.pending == record_size then take_record wire p' else ok p'

  abbrev pub feed_bytes : Progress wire → Bytes → Result (Progress wire)
  feed_bytes p [] = ok p
  feed_bytes p (c ∷ s) = feed_byte p c >>= λ q. feed_bytes q s

  bind_assoc :
      {A B C : Type 0} (m : Result A) (f : A → Result B) (g : B → Result C)
      → ((m >>= f) >>= g) ≡ (m >>= λ a. f a >>= g)
  bind_assoc (ok a) f g = refl
  bind_assoc (err e) f g = refl

  bind_same :
      {A B : Type 0} (m : Result A) (f g : A → Result B)
      → ((a : A) → m ≡ ok a → f a ≡ g a)
      → (m >>= f) ≡ (m >>= g)
  bind_same (ok a) f g h = h a refl
  bind_same (err e) f g h = refl

  feed_bytes-append :
      (p : Progress wire) (a b : Bytes)
      → feed_bytes p (a ++ b) ≡ (feed_bytes p a >>= λ q. feed_bytes q b)
  feed_bytes-append p [] b = refl
  feed_bytes-append p (c ∷ a) b =
      bind_same (feed_byte p c) (λ q. feed_bytes q (a ++ b))
        (λ q. feed_bytes q a >>= λ r. feed_bytes r b) (λ q _. feed_bytes-append q a b)
      ∙ sym (bind_assoc (feed_byte p c) (λ q. feed_bytes q a) (λ r. feed_bytes r b))

  -- The pending bytes are taken as a record where they are 20.
  abbrev landed : Progress wire → Bytes → Result (Progress wire)
  landed p s =
      let p' : Progress wire = record p { pending = s } in
      if length s == record_size then take_record wire p' else ok p'

  bind_ok : {A : Type 0} (m : Result A) → (m >>= λ a. ok a) ≡ m
  bind_ok (ok a) = refl
  bind_ok (err e) = refl

  -- A round of the loop is as many single bytes.
  round_bytes :
      (p : Progress wire) (c : ℕ) (s : Bytes) (room : ℕ)
      → suc room + length p.pending ≡ record_size
      → feed_bytes p (c ∷ take room s) ≡ landed p (p.pending ++ (c ∷ take room s))
  round_bytes p c s zero sum = bind_ok (feed_byte p c)
  round_bytes p c [] (suc room) sum =
      let n = length-append p.pending (c ∷ []) in
      let early : (length (p.pending ++ (c ∷ [])) == record_size) ≡ false =
        ground (arith, n, sum) in
      rw (early) refl
  round_bytes p c (d ∷ s) (suc room) sum =
      let n = length-append p.pending (c ∷ []) in
      let early : (length (p.pending ++ (c ∷ [])) == record_size) ≡ false =
        ground (arith, n, sum) in
      rw (early) (
        round_bytes (record p { pending = p.pending ++ (c ∷ []) }) d s room (omega (arith, n, sum))
        ∙ ap (landed p) (append_assoc p.pending (c ∷ []) (d ∷ take room s)))

  fresh_pending :
      (p : Progress wire) → Ensures (λ (q : Progress wire). q.pending ≡ []) (take_record wire p)
  unfolding take_record input_update check_update
  fresh_pending p =
      Ensures-require (leb (p.records + 1) max_records && get_or p.pending 3 0 == 0) _ λ _.
        let u = parse wire p.pending in
        let p' : Progress wire = record p { records = p.records + 1; pending = [] } in
        Ensures-if (u.kind == 0) (λ _. Ensures-require (is_input wire p' u) _ λ _. returns refl)
          (λ _. Ensures-require (is_check wire p' u) _ λ _.
            Ensures-require (leb (current wire p) (group u.test)) _ λ _.
              Ensures-bind
                (if u.kind == 3
                  then (require (is_result wire p' u) _
                      >> ok (set_result wire (u.branch - 1) (u.test - 1) u.estimate p.results))
                  else (require (is_counter wire u) _ >> ok p.results))
                λ results _. returns refl)

  -- A receiver of bytes between two rounds has room for one.
  abbrev pub HasRoom : Progress wire → Type 0
  HasRoom p = length p.pending < record_size

  landed-HasRoom :
      (p : Progress wire) (s : Bytes) → length s ≤ record_size → Ensures HasRoom (landed p s)
  landed-HasRoom p s short =
      Ensures-if (length s == record_size)
        (λ _. Ensures-weaken (λ q e. empty-HasRoom q e) (fresh_pending (record p { pending = s })))
        (λ early. returns (ground (arith, short, early)))
    where
      empty-HasRoom : (q : Progress wire) → q.pending ≡ [] → HasRoom q
      empty-HasRoom q e = rw (e) (omega arith)

  take_short : (n : ℕ) (s : Bytes) → length (take n s) ≤ n
  take_short zero s = omega arith
  take_short (suc n) [] = omega arith
  take_short (suc n) (c ∷ s) = omega (arith, take_short n s)

  feed_from-bytes :
      (fuel : ℕ) (p : Progress wire) (s : Bytes)
      → length s ≤ fuel
      → HasRoom p
      → feed_from wire fuel p s ≡ feed_bytes p s
  unfolding feed_from
  feed_from-bytes zero p [] enough room = refl
  feed_from-bytes zero p (c ∷ s) enough room = (let bad : ⊥ = omega (arith, enough) in absurd bad)
  feed_from-bytes (suc fuel) p [] enough room = refl
  feed_from-bytes (suc fuel) p (c ∷ s) enough room =
      let r = 19 - length p.pending in
      let opened : record_size - length p.pending ≡ suc r = omega (arith, room) in
      let chunk = p.pending ++ (c ∷ take r s) in
      let n = length-append p.pending (c ∷ take r s) in
      let short : length chunk ≤ record_size = omega (arith, n, take_short r s, room) in
      rw (opened) (
        bind_same (landed p chunk) (λ q. feed_from wire fuel q (drop r s))
          (λ q. feed_bytes q (drop r s))
          (λ q e.
            feed_from-bytes fuel q (drop r s) (omega (arith, enough, length-drop r s))
              (Ensures-value (landed-HasRoom p chunk short) q e))
        ∙ (ap (λ m. m >>= λ q. feed_bytes q (drop r s))
              (sym (round_bytes p c s r (omega (arith, room))))
            ∙ (sym (feed_bytes-append p (c ∷ take r s) (drop r s))
                ∙ ap (λ x. feed_bytes p (c ∷ x)) (take-append-drop r s))))

  feed_bytes-HasRoom :
      (p : Progress wire) (s : Bytes) → HasRoom p → Ensures HasRoom (feed_bytes p s)
  feed_bytes-HasRoom p [] room = returns room
  feed_bytes-HasRoom p (c ∷ s) room = Ensures-bind (feed_byte p c) λ q e.
      let n = length-append p.pending (c ∷ []) in
      feed_bytes-HasRoom q s
        (Ensures-value (landed-HasRoom p (p.pending ++ (c ∷ [])) (omega (arith, n, room))) q e)

  -- Bytes are the same records however they are cut: the copying of chunks does what taking one byte at a time does,
  -- and two reads do what one read of both does. (A receiver that has room for a byte, as one has at first
  -- and after every read.)
  pub feed_chunks :
      (p : Progress wire) (a b : Bytes)
      → HasRoom p
      → (feed wire p (a ++ b) ≡ feed_bytes p (a ++ b))
        × (feed wire p (a ++ b) ≡ (feed wire p a >>= λ q. feed wire q b))
  unfolding feed
  feed_chunks p a b room =
      let whole = feed_from-bytes (length (a ++ b)) p (a ++ b) (omega arith) room in
      let first = feed_from-bytes (length a) p a (omega arith) room in
      (
        whole,
        whole
            ∙ (feed_bytes-append p a b
                ∙ (bind_same (feed_bytes p a) (λ q. feed_bytes q b)
                      (λ q. feed_from wire (length b) q b)
                      (λ q e. sym (
                        feed_from-bytes (length b) q b (omega arith)
                          (Ensures-value (feed_bytes-HasRoom p a room) q e)))
                    ∙ ap (λ m. m >>= λ q. feed_from wire (length b) q b) (sym first))),
      )
