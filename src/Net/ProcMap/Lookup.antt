-- ===== src/Net/ProcMap/Lookup.antt =====
-- The command map finds what was registered last.
use model_lib.Prelude.{
  ℕ, ◌≢◌, ◌≡◌, ◌↔◌, refl, none, some, true, false, List, [], ◌∷◌, arith, if◌then◌else◌, inl, inr,
  Bool-cases, Option-cases, subst, ◌∙◌, ap,
}
use model_lib.Prelude.Text.{ByteString, str_eq, str_eq_iff}
use model_lib.Util.Bytes.Order.{compare_bytes_order}
use model_lib.Net.ProcMap.{Command, Proc, bytes_equal, read_flags, get_proc, assign, set_proc}

bytes_equal_iff : (s t : ByteString) → (bytes_equal s t ≡ true) ↔ (s ≡ t)
unfolding bytes_equal
bytes_equal_iff s t = ground (arith, compare_bytes_order s t)

pub bytes_equal-str_eq : (s t : ByteString) → bytes_equal s t ≡ str_eq s t
bytes_equal-str_eq s t = ground (arith, bytes_equal_iff s t, str_eq_iff s t)

module _ {S : Type 0} where
  -- An assignment changes the command of its name.
  get_proc-assign :
      (map : List (Command S)) (c : ByteString) (flags : ℕ) (proc : Proc S)
      → get_proc map c ≢ none
      → get_proc (assign map c flags proc) c
        ≡ some (record { name = c; flags = flags; proc = proc })
  unfolding get_proc assign
  get_proc-assign [] c flags proc h = absurd (h refl)
  get_proc-assign (d ∷ map) c flags proc h = elim (Bool-cases (bytes_equal d.name c)) [
    | inl e ↦
        rw (e, if◌then◌else◌, e)
          (ap (λ n. some (record { name = n; flags = flags; proc = proc }))
            ((bytes_equal_iff d.name c).0 e))
    | inr e ↦
        rw (e, if◌then◌else◌, e) (get_proc-assign map c flags proc (rw (e, if◌then◌else◌) at h))
  ]

  -- It leaves the others.
  get_proc-assign_other :
      (map : List (Command S)) (c e : ByteString) (flags : ℕ) (proc : Proc S)
      → bytes_equal c e ≡ false
      → get_proc (assign map c flags proc) e ≡ get_proc map e
  unfolding get_proc assign
  get_proc-assign_other [] c e flags proc h = refl
  get_proc-assign_other (d ∷ map) c e flags proc h = elim (Bool-cases (bytes_equal d.name c)) [
    | inl t ↦
        let other : bytes_equal d.name e ≡ false =
          ap (λ n. bytes_equal n e) ((bytes_equal_iff d.name c).0 t) ∙ h in
        rw (t, if◌then◌else◌, other) refl
    | inr f ↦ rw (f, if◌then◌else◌, get_proc-assign_other map c e flags proc h) refl
  ]

  abbrev with_new : List (Command S) → ByteString → Proc S → List (Command S)
  with_new map c proc = record { name = c; flags = 0; proc = proc } ∷ map

  skip_new :
      (map : List (Command S)) (c e : ByteString) (proc : Proc S)
      → bytes_equal c e ≡ false
      → get_proc (with_new map c proc) e ≡ get_proc map e
  unfolding get_proc
  skip_new map c e proc h = rw (h, if◌then◌else◌) refl

  -- Before the assignment the map has a command of the name.
  inserted-ne-none :
      (map : List (Command S)) (c : ByteString) (proc : Proc S)
      → get_proc (record { name = c; flags = 0; proc = proc } ∷ map) c ≢ none
  unfolding get_proc
  inserted-ne-none map c proc h = cc (rw ((bytes_equal_iff c c).1 refl, if◌then◌else◌) at h)

  get_proc-set_proc_same :
      (map : List (Command S)) (c sflags : ByteString) (proc : Proc S)
      → get_proc (set_proc map c sflags proc) c
        ≡ some (record { name = c; flags = read_flags 0 sflags; proc = proc })
  unfolding set_proc
  get_proc-set_proc_same map c sflags proc = elim (Option-cases (get_proc map c)) [
    | inl e ↦ rw e (get_proc-assign (with_new map c proc) c _ proc (inserted-ne-none map c proc))
    | inr (d, e) ↦ rw e (get_proc-assign map c _ proc (λ h. cc (h, e)))
  ]

  get_proc-set_proc_other :
      (map : List (Command S)) (c sflags e : ByteString) (proc : Proc S)
      → bytes_equal c e ≡ false
      → get_proc (set_proc map c sflags proc) e ≡ get_proc map e
  unfolding set_proc
  get_proc-set_proc_other map c sflags e proc h = elim (Option-cases (get_proc map c)) [
    | inl n ↦ rw n (
        get_proc-assign_other (with_new map c proc) c e (read_flags 0 sflags) proc h
        ∙ skip_new map c e proc h)
    | inr (d, n) ↦ rw n (get_proc-assign_other map c e _ proc h)
  ]

  -- A name that was registered is found with the flags and the function of its last registration;
  -- every other name is found as before.
  pub get_proc-set_proc :
      (map : List (Command S)) (c sflags e : ByteString) (proc : Proc S)
      → get_proc (set_proc map c sflags proc) e ≡ (
          if str_eq c e
          then some (record { name = c; flags = read_flags 0 sflags; proc = proc })
          else get_proc map e)
  get_proc-set_proc map c sflags e proc = elim (Bool-cases (str_eq c e)) [
    | inl t ↦
        rw (t, if◌then◌else◌)
          (subst
            (λ i.
              get_proc (set_proc map c sflags proc) i
              ≡ some (record { name = c; flags = read_flags 0 sflags; proc = proc }))
            ((str_eq_iff c e).0 t) (get_proc-set_proc_same map c sflags proc))
    | inr f ↦
        rw (f, if◌then◌else◌)
          (get_proc-set_proc_other map c sflags e proc (bytes_equal-str_eq c e ∙ f))
  ]
