-- ===== src/Logger/Bounds.antt =====
-- A line stays in its buffer, and the files keep the lines and stay small.
use model_lib.Prelude.{
  ap, All, false, ℕ, ◌+◌, ◌-◌, ◌%◌, ◌^◌, ◌≤◌, ◌<◌, ◌≡◌, ◌⊎◌, refl, sym, subst, ◌∙◌, inl, inr,
  Option, none, some, true, ◌&&◌, List, [], ◌∷◌, ◌++◌, ltb, if◌then◌else◌, take, length,
  length-append, length-take, append_assoc, append-nil, arith, Bool-cases,
}
use model_lib.Prelude.Text.{ByteString, str_eq}
use model_lib.Logger.{
  Logger, Level, opened, Files, System, Logged, rank, get_level_name, printed, make_line, rotate,
  write_line, logv, without,
}

-- Everything that was written, in order.
abbrev text_of : List (ByteString × ByteString) → ByteString
text_of [] = []
text_of ((name, f) ∷ fs) = text_of fs ++ f

-- No older file has the name.
abbrev pub IsFresh : ByteString → List (ByteString × ByteString) → Type 0
IsFresh name files = All (λ f. str_eq f.0 name ≡ false) files

without-fresh :
    (name : ByteString) (files : List (ByteString × ByteString))
    → IsFresh name files
    → without name files ≡ files
without-fresh name [] h = refl
without-fresh name ((other, text) ∷ files) (h, hs) =
    rw (h, if◌then◌else◌) (ap (λ fs. (other, text) ∷ fs) (without-fresh name files hs))

abbrev pub whole : Files → ByteString
whole files = text_of files.older ++ files.current

length-printed : (space : ℕ) (text : ByteString) → 0 < space → length (printed space text) ≤ space
unfolding printed
length-printed space text h = elim (Bool-cases (ltb (length text) space)) [
  | inl e ↦ rw (e, if◌then◌else◌) (ground (arith, e))
  | inr e ↦
      rw (e, if◌then◌else◌)
        (omega
          (arith, length-append (take (space - 1) text) (0 ∷ []), length-take (space - 1) text))
]

length-make_line :
    (level : Level) (date text : ByteString)
    → length date ≤ 64
    → length (make_line level date text) ≤ 4087
unfolding make_line
length-make_line level date text h =
    let space = 4096 - (length date + 8) - 10 in
    omega (
      arith,
      length-append date (take 8 (get_level_name level) ++ (printed space text ++ 10 ∷ [])),
      length-append (take 8 (get_level_name level)) (printed space text ++ 10 ∷ []),
      length-append (printed space text) (10 ∷ []),
      length-printed space text (omega arith),
      length-take 8 (get_level_name level),
    )

-- The stream is open, `w_curr` is the size of the file, and no more than a rotation allows.
pub record IsWithin (l : Logger) (files : Files) : Type 0 where
  pub open_stream : l.fp ≡ opened
  pub size : l.w_curr ≡ length files.current
  pub small : (l.rotate_size ≡ 0) ⊎ (l.w_curr ≤ l.rotate_size)

-- What `logv` returns, for a line that it may leave out.
abbrev pub Logs : Files → ByteString → Option Logged → Type 0
Logs files line none = ⊥
Logs files line (some r) =
    ((whole r.files ≡ whole files ++ line) × (r.result ≡ length line)) × IsWithin r.logger r.files

module _ (sys : System) (l : Logger) (files : Files) (renamed : sys.renamed ≡ true)
    (reopened : sys.reopened ≡ true) (fresh : IsFresh sys.newpath files.older)
    (s : IsWithin l files) where
  write_line-Logs :
      (line : ByteString)
      → length line ≤ 4087
      → length files.current + 4096 < 2 ^ 64
      → Logs files line (write_line sys l files line opened)
  unfolding write_line rotate
  write_line-Logs line h fits =
      let size : (l.w_curr + length line) % 2 ^ 64 ≡ length (files.current ++ line) =
        omega (arith, s.size, length-append files.current line) in
      let joined : text_of files.older ++ (files.current ++ line) ≡ whole files ++ line =
        sym (append_assoc (text_of files.older) files.current line) in
      elim (Bool-cases
        (ltb 0 l.rotate_size && ltb l.rotate_size ((l.w_curr + length line) % 2 ^ 64))) [
          | inl e ↦
              rw (e, if◌then◌else◌, renamed, reopened, without-fresh sys.newpath files.older fresh)
                (
                  (append-nil _ ∙ joined, refl),
                  record { open_stream = refl; size = refl; small = inr (omega arith) },
                )
          | inr e ↦
              rw (e, if◌then◌else◌)
                (
                  (joined, refl),
                  record { open_stream = s.open_stream; size = size; small = ground (arith, e) },
                )
        ]

  ap_stream :
      (line : ByteString)
      → Logs files line (write_line sys l files line opened)
      → Logs files line (write_line sys l files line l.fp)
  ap_stream line h =
      subst (λ fp. Logs files line (write_line sys l files line fp)) (sym s.open_stream) h

  -- A call of `logv` writes inside its buffer of 4096 bytes, whatever the text. If no older file has the
  -- name that a rotation would give, which is made of the second, the call loses nothing: the files hold
  -- all that they held and the line behind it, or just that where the level asks for no line. The stream
  -- stays open, the size is that of the current file, and it is no more than `rotate_size` where that is
  -- not 0. `rename` and `fopen` must succeed, the date has at most 64 bytes, and the file has 4096 bytes
  -- less than 2 ^ 64.
  pub logv-Logs :
      (level : Level) (date text : ByteString)
      → length date ≤ 64
      → length files.current + 4096 < 2 ^ 64
      → (length (make_line level date text) + 1 ≤ 4096)
        × Logs files
            (if ltb (rank l.level) (rank level) then [] else make_line level date text)
            (logv sys l files level date text)
  unfolding logv
  logv-Logs level date text h fits =
      let bound = length-make_line level date text h in
      (
        omega (arith, bound),
        elim (Bool-cases (ltb (rank l.level) (rank level))) [
          | inl e ↦ rw (e, if◌then◌else◌) ((sym (append-nil _), refl), s)
          | inr e ↦
              rw (e, if◌then◌else◌)
                (ap_stream (make_line level date text)
                  (write_line-Logs (make_line level date text) bound fits))
        ],
      )
