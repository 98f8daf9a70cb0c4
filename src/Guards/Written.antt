-- ===== src/Guards/Written.antt =====
-- The scan of the guard over a query that is written in parts: it collects exactly the names of the
-- references.
use text2cypher_manufacturin.Common.{
  ℕ, zero, suc, ◌<◌, ◌≤◌, ◌≡◌, refl, ap, sym, ◌∙◌, Bool, true, false, ◌&&◌, ◌||◌, Option, some,
  List, [], ◌∷◌, ◌++◌, arith, eqb, length, length-append, if_ind, All,
}
use native.Mathlib.Nat.{le_refl}
use text2cypher_manufacturin.Guards.Mask.{head, is_next}
use text2cypher_manufacturin.Guards.Labels.{
  References, Scan, behind_quote, labelled, scan_step, next_scan, scan_from,
}
use text2cypher_manufacturin.Guards.Grammar.{
  IsNeutral, Alternative, Part, code, literal, reference, written_name, written_alternatives,
  written, names_of, names, IsInside, IsPart, IsWritten,
}
use text2cypher_manufacturin.Guards.Chains.{add_names, labels-written}

abbrev pub no_references : References
no_references = record { names = []; unresolved = false }

-- A scan outside every brace.
abbrev pub outside : List ℕ → References → Scan
outside rest refs = record { rest = rest; suppress_stack = []; references = refs }

add_names-append :
    (xs ys : List (List ℕ)) (refs : References)
    → add_names (xs ++ ys) refs ≡ add_names ys (add_names xs refs)
add_names-append [] ys refs = refl
add_names-append (x ∷ xs) ys refs = add_names-append xs ys _

length-written_alternatives :
    (rest : List Alternative) (t : List ℕ) → length t ≤ length (written_alternatives rest t)
length-written_alternatives [] t = le_refl _
length-written_alternatives (a ∷ rest) t =
    let u = written_alternatives rest t in
    omega (
      arith,
      length-written_alternatives rest t,
      length-append a.before (a.operator ∷ written_name a.named u),
      length-append a.named.gap (a.named.first ∷ (a.named.rest ++ u)),
      length-append a.named.rest u,
    )

-- A literal ends at the next quote.
behind_quote-body :
    (quote : ℕ) (body t : List ℕ)
    → All (IsInside quote) body
    → behind_quote quote false (body ++ (quote ∷ t)) ≡ t
behind_quote-body quote [] t h = ground arith
behind_quote-body quote (c ∷ body) t ((other, plain), h) =
    rw (other, plain, behind_quote-body quote body t h)

module _ (is_alnum : ℕ → Bool) where
  neutral-scan_step :
      (cypher : List ℕ) (refs : References) (c : ℕ) (s : List ℕ)
      → IsNeutral c
      → scan_step is_alnum cypher (outside (c ∷ s) refs) c s ≡ some (outside s refs)
  neutral-scan_step cypher refs c s h =
      if_ind P (eqb c b'/' && is_next b'/' (head s)) (λ e. absurd (ground (arith, e, h)))
        λ _.
          if_ind P (eqb c b'/' && is_next b'*' (head s)) (λ e. absurd (ground (arith, e, h)))
            λ _.
              if_ind P (eqb c b'\'' || eqb c b'"') (λ e. absurd (ground (arith, e, h)))
                λ _.
                  if_ind P (eqb c b'`') (λ e. absurd (ground (arith, e, h)))
                    λ _.
                      if_ind P (eqb c b'{') (λ e. absurd (ground (arith, e, h)))
                        λ _.
                          if_ind P (eqb c b'}') (λ e. absurd (ground (arith, e, h)))
                            λ _.
                              if_ind P (eqb c b':' && true) (λ e. absurd (ground (arith, e, h)))
                                (λ _. refl)
    where
      P : Option Scan → Type 0
      P o = o ≡ some (outside s refs)

  -- A scan passes over neutral characters, with fuel to spare.
  neutral-scan_from :
      (fuel : ℕ) (cypher s t : List ℕ) (refs : References)
      → All IsNeutral s
      → length (s ++ t) < fuel
      → (fuel' : ℕ) × (length t < fuel')
        × (scan_from is_alnum fuel cypher (outside (s ++ t) refs)
            ≡ scan_from is_alnum fuel' cypher (outside t refs))
  unfolding scan_from
  neutral-scan_from fuel cypher [] t refs h less = (fuel, less, refl)
  neutral-scan_from zero cypher (c ∷ s) t refs h less = absurd (omega arith)
  neutral-scan_from (suc fuel) cypher (c ∷ s) t refs (neutral, h) less =
      let (fuel', fits, same) = neutral-scan_from fuel cypher s t refs h (omega arith) in
      (
        fuel',
        fits,
        ap (next_scan (scan_from is_alnum fuel cypher))
              (neutral-scan_step cypher refs c (s ++ t) neutral)
            ∙ same,
      )

  literal-scan_step :
      (cypher : List ℕ) (refs : References) (quote : ℕ) (body t : List ℕ)
      → (eqb quote b'\'' || eqb quote b'"') ≡ true
      → All (IsInside quote) body
      → scan_step is_alnum cypher
          (outside (quote ∷ (body ++ (quote ∷ t))) refs)
          quote
          (body ++ (quote ∷ t))
        ≡ some (outside t refs)
  literal-scan_step cypher refs quote body t q inside =
      if_ind P (eqb quote b'/' && is_next b'/' (head s)) (λ e. absurd (ground (arith, e, q)))
        λ _.
          if_ind P (eqb quote b'/' && is_next b'*' (head s)) (λ e. absurd (ground (arith, e, q)))
            λ _.
              if_ind P (eqb quote b'\'' || eqb quote b'"')
                (λ _. ap (λ r. some (outside r refs)) (behind_quote-body quote body t inside))
                (λ e. absurd (ground (arith, e, q)))
    where
      s : List ℕ
      s = body ++ (quote ∷ t)

      P : Option Scan → Type 0
      P o = o ≡ some (outside t refs)

  -- A scan goes on behind a part, with fuel to spare.
  abbrev pub Passes :
      (cypher : List ℕ) (fuel : ℕ) (before after : List ℕ) (refs refs' : References) → Type 0
  Passes cypher fuel before after refs refs' =
      (fuel' : ℕ) × (length after < fuel')
      × (scan_from is_alnum fuel cypher (outside before refs)
          ≡ scan_from is_alnum fuel' cypher (outside after refs'))

  part-scan_from :
      (cypher : List ℕ) (part : Part) (parts : List Part) (t : List ℕ) (fuel : ℕ)
      (refs : References)
      → IsPart is_alnum part (written parts t)
      → length (written (part ∷ parts) t) < fuel
      → Passes cypher fuel
          (written (part ∷ parts) t)
          (written parts t)
          refs
          (add_names (names_of part) refs)
  unfolding scan_from
  part-scan_from cypher (code s) parts t fuel refs h less =
      neutral-scan_from fuel cypher s (written parts t) refs h less
  part-scan_from cypher (literal quote body) parts t zero refs h less = absurd (omega arith)
  part-scan_from cypher (literal quote body) parts t (suc fuel) refs (q, inside) less = (
    fuel,
    omega (arith, length-append body (quote ∷ written parts t)),
    ap (next_scan (scan_from is_alnum fuel cypher))
        (literal-scan_step cypher refs quote body (written parts t) q inside),
  )
  part-scan_from cypher (reference n rest) parts t zero refs h less = absurd (omega arith)
  part-scan_from cypher (reference n rest) parts t (suc fuel) refs (first, others, end, stop) less =
      let s = written_name n (written_alternatives rest (written parts t)) in
      (
        fuel,
        omega (
          arith,
          length-append n.gap (n.first ∷ (n.rest ++ written_alternatives rest (written parts t))),
          length-append n.rest (written_alternatives rest (written parts t)),
          length-written_alternatives rest (written parts t),
        ),
        ap (λ o. next_scan (scan_from is_alnum fuel cypher) (labelled (outside (b':' ∷ s) refs) o))
            (labels-written is_alnum (suc (length s)) n rest (written parts t) refs first others end
              stop (le_refl _)),
      )

  pub written-scan_from :
      (cypher : List ℕ) (parts : List Part) (t : List ℕ) (fuel : ℕ) (refs : References)
      → IsWritten is_alnum parts t
      → length (written parts t) < fuel
      → Passes cypher fuel (written parts t) t refs (add_names (names parts) refs)
  written-scan_from cypher [] t fuel refs h less = (fuel, less, refl)
  written-scan_from cypher (part ∷ parts) t fuel refs (h, hs) less =
      let (fuel1, less1, same1) = part-scan_from cypher part parts t fuel refs h less in
      let (fuel2, less2, same2) =
        written-scan_from cypher parts t fuel1 (add_names (names_of part) refs) hs less1 in
      (
        fuel2,
        less2,
        same1
            ∙ same2
            ∙ ap (λ r. scan_from is_alnum fuel2 cypher (outside t r))
                (sym (add_names-append (names_of part) (names parts) refs)),
      )
