-- ===== src/Input/Mapped/Leaks.antt =====
-- read_op.h, MMap: TextContent of a path, once and again.
use native.Mathlib.Nat.{mod-lt, mod-eq_of_lt}
use mathlib.Core.Path.{subst}
use mathlib.Core.List.{append-nil}
use openmi_base.Base.{
  ℕ, suc, ◌-◌, ◌%◌, ◌<◌, ◌==◌, ◌≡◌, ◌≢◌, refl, ap, ◌∙◌, inl, inr, Bool, true, false, ◌&&◌, List, [],
  ◌∷◌, ◌++◌, Option, none, some, Bool-cases, bind_some, bind_inv, guard_inv, some_inj, lt→ltb,
  length, ltb, ==_iff, arith, ◌>>=◌, if◌then◌else◌,
}
use openmi_base.Base.Slots.{clear_slot}
use openmi_base.Base.Dict.{Text}
use openmi_base.Base.Format.{c_string}
use openmi_base.DString.Join.{without}
use openmi_base.Input.Lines.{c_string_whole}
use openmi_base.Input.Mapped.{
  Answers, Mappings, MemoryMap, paged, nothing, map_file, load, close_map, unmap, text_content,
  text_content_of, given_path, passed,
}

-- Answers of a system that does what it is asked.
pub record IsAnswering (sys : Answers) : Type 0 where
  pub stats_ok : sys.stats ≡ true
  pub maps_ok : sys.maps ≡ true
  pub closes_ok : sys.closes ≡ true

-- In memory that ends with the text there is no end of it.
c_string_endless : (s : Text) → without 0 s ≡ true → c_string s ≡ none
unfolding c_string without
c_string_endless [] h = refl
c_string_endless (c ∷ cs) h = elim (Bool-cases (c == 0)) [
  | inl e ↦ absurd (ground (arith, h, e))
  | inr e ↦ rw (e, c_string_endless cs (ground (arith, h, e))) refl
]

full_page : (page n : ℕ) → 0 < page → n % page ≡ 0 → (page - n % page) % page ≡ 0
full_page page n h e = rw e (grind arith)

part_page : (page n : ℕ) → 0 < page → n % page ≢ 0 → (k : ℕ) × ((page - n % page) % page ≡ suc k)
part_page page n h e =
    let r = mod-lt n h in
    (page - n % page - 1, mod-eq_of_lt (omega (arith, e, r)) ∙ omega (arith, e, r))

-- The mappings and the object after a load of a file of these bytes.
abbrev pub mapped : ℕ → Mappings → List ℕ → Mappings
mapped page p bytes = record { next = suc p.next; live = (p.next, paged page bytes) ∷ p.live }

abbrev pub loaded : Mappings → List ℕ → MemoryMap
loaded p bytes = record { store = some p.next; size = length bytes }

beq_refl : (n : ℕ) → (n == n) ≡ true
beq_refl n = (==_iff n n).1 refl

module _ (page : ℕ) (pos_page : 0 < page) where
  paged_text :
      (s : Text)
      → without 0 s ≡ true
      → c_string (paged page s) ≡ (if length s % page == 0 then none else some s)
  unfolding paged
  paged_text s h = elim (Bool-cases (length s % page == 0)) [
    | inl e ↦
        let full = full_page page (length s) pos_page ((==_iff (length s % page) 0).0 e) in
        rw e (
          ap (λ (n : ℕ). c_string (s ++ nothing n)) full
          ∙ ap c_string (append-nil s)
          ∙ c_string_endless s h)
    | inr e ↦
        let (k, part) = part_page page (length s) pos_page (λ z. absurd (ground (arith, e, z))) in
        rw e (ap (λ (n : ℕ). c_string (s ++ nothing n)) part ∙ c_string_whole s (nothing k) h)
  ]

  load_lem :
      (sys : Answers) (c : ℕ) (cs : Text) (b : ℕ) (bs : Text) (p : Mappings) (m : MemoryMap)
      → IsAnswering sys
      → sys.opens (c ∷ cs) ≡ some (b ∷ bs)
      → load page sys (some (c ∷ cs)) p m ≡ some (mapped page p (b ∷ bs), loaded p (b ∷ bs), true)
  unfolding load map_file
  load_lem sys c cs b bs p m ok e =
      rw (e, ok.stats_ok, ok.maps_ok, lt→ltb 0 (length (b ∷ bs)) (omega arith), ok.closes_ok) refl

  -- On a system that answers, a path and its file not empty, and no zero byte in the file: TextContent
  -- of the path reads outside of the mapped memory if the size of the file is a multiple of the page's,
  -- and else gives exactly the text of the file, in a mapping that is added to those of the process.
  pub text_content_of_lem :
      (sys : Answers) (c : ℕ) (cs : Text) (b : ℕ) (bs : Text) (p : Mappings) (m : MemoryMap)
      → IsAnswering sys
      → sys.opens (c ∷ cs) ≡ some (b ∷ bs)
      → without 0 (b ∷ bs) ≡ true
      → text_content_of page sys (c ∷ cs) p m ≡ (
          if length (b ∷ bs) % page == 0
          then none
          else some (mapped page p (b ∷ bs), loaded p (b ∷ bs), b ∷ bs))
  unfolding text_content_of text_content
  text_content_of_lem sys c cs b bs p m ok e h =
      bind_some _ (load_lem sys c cs b bs p m ok e)
      ∙ rw (beq_refl p.next, paged_text (b ∷ bs) h) (pick (length (b ∷ bs) % page == 0))
    where
      also : Text → Option (Mappings × MemoryMap × Text)
      also x = some (mapped page p (b ∷ bs), loaded p (b ∷ bs), x)

      pick :
          (t : Bool)
          → ((if t then none else some (b ∷ bs)) >>= also)
            ≡ (if t then none else some (mapped page p (b ∷ bs), loaded p (b ∷ bs), b ∷ bs))
      pick true = refl
      pick false = refl

-- The addresses of the mappings lie before the next one.
abbrev pub AllBefore : ℕ → List (ℕ × List ℕ) → Type 0
AllBefore n [] = Unit {0}
AllBefore n ((i, bytes) ∷ live) = (i < n) × AllBefore n live

clear_slot-before : (n : ℕ) (live : List (ℕ × List ℕ)) → AllBefore n live → clear_slot n live ≡ live
clear_slot-before n [] h = refl
clear_slot-before n ((i, bytes) ∷ live) h =
    let no : (i == n) ≡ false = ground (arith, h.0) in rw (no, clear_slot-before n live h.1) refl

load_inv :
    (page : ℕ) (sys : Answers) (path : Option Text) (p : Mappings) (m : MemoryMap)
    (r : Mappings × MemoryMap × Bool)
    → load page sys path p m ≡ some r
    → (bytes : List ℕ) × (ltb 0 (length bytes) ≡ true)
      × ((mapped page p bytes, loaded p bytes, true) ≡ r)
unfolding load map_file
load_inv page sys path p m r e =
    let (name, _, f1) = bind_inv (given_path path) _ _ e in
    let (bytes, _, f2) = bind_inv (sys.opens name) _ _ f1 in
    let (_, _, f3) = bind_inv (passed sys.stats) _ _ f2 in
    let (s, e4, f4) = bind_inv (map_file page sys bytes p) _ _ f3 in
    let (_, _, f5) = bind_inv (passed sys.closes) _ _ f4 in
    let (some_bytes, g) =
      guard_inv (sys.maps && ltb 0 (length bytes)) (mapped page p bytes, p.next) s e4 in
    (bytes, ground (arith, some_bytes), ap (result (length bytes)) g ∙ some_inj f5)
  where
    result : ℕ → Mappings × ℕ → Mappings × MemoryMap × Bool
    result n x = (x.0, record { store = some x.1; size = n }, true)

-- If load returns, it returns true, and the close after it takes away the mapping that load made and no
-- other: what the object had mapped before the load stays mapped.
pub close_map-load :
    (page : ℕ) (sys : Answers) (path : Option Text) (p p' : Mappings) (m m' : MemoryMap)
    (done : Bool)
    → AllBefore p.next p.live
    → load page sys path p m ≡ some (p', m', done)
    → (done ≡ true)
      × (close_map p' m'
          ≡ some (record { next = suc p.next; live = p.live }, record { store = none; size = 0 }))
unfolding close_map unmap
close_map-load page sys path p p' m m' done fresh e =
    let (bytes, size, same) = load_inv page sys path p m (p', m', done) e in
    subst
      (λ (r : Mappings × MemoryMap × Bool).
        (r.2 ≡ true)
        × (close_map r.0 r.1
            ≡ some
                (record { next = suc p.next; live = p.live }, record { store = none; size = 0 })))
      same (refl, rw (size, beq_refl p.next, clear_slot-before p.next p.live fresh) refl)
