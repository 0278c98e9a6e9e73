-- ===== src/Examples/Kernels.antt =====
-- compiler.h on small PTX texts.
use fan_master_thesis.Base.{◌≤◌, ℕ, ◌≡◌, refl, none, List, [], ◌∷◌, ◌++◌, All, arith}
use fan_master_thesis.Ptx.Input.{text_eq, IsLine}
use fan_master_thesis.Ptx.Pattern.{
  contains_entry, search_param, is_word, is_space, after, dot_entry, dot_param,
}
use fan_master_thesis.Ptx.{convert}
use fan_master_thesis.Ptx.Source.{
  Section, line, entry, declares, silent, parts, IsSection, IsBody, entry_text, body_text,
  body_texts, types, declared,
}
use fan_master_thesis.Ptx.Convert.{IsOpen, unread_is}
use fan_master_thesis.Ptx.Endless.{lines, convert-endless}
use fan_master_thesis.Ptx.File.{rounds}

-- `.entry k(`
abbrev entry_line : List ℕ
entry_line = dot_entry ++ (32 ∷ b'k' ∷ b'(' ∷ [])

-- `.param .u64 p`
abbrev param : List ℕ
param = dot_param ++ (32 ∷ b'.' ∷ b'u' ∷ b'6' ∷ b'4' ∷ b' ' ∷ b'p' ∷ [])

param-IsLine : IsLine param
param-IsLine = omega arith

param-IsOpen : IsOpen param
unfolding text_eq
param-IsOpen = refl

cut_off : All IsOpen (lines param)
unfolding text_eq lines
cut_off = (refl, tt)

convert-endless_example : convert 1000 entry_line (unread_is param) [] ≡ none
convert-endless_example = convert-endless 1000 entry_line (unread_is param) [] cut_off

-- A comment, and a kernel `k` with one parameter of the type `.u64` and a line `(`.
abbrev pub file : List Section
file =
    line (b'/' ∷ b'/' ∷ [])
    ∷ entry [] b'k' [] []
        (declares [] 32 [] b'u' (b'6' ∷ b'4' ∷ []) (b' ' ∷ b'p' ∷ []) ∷ silent (b'(' ∷ []) ∷ [])
    ∷ []

comment-IsLine : IsLine (b'/' ∷ b'/' ∷ [])
comment-IsLine = omega arith

entry-IsLine : IsLine (entry_text [] b'k' [] [])
entry-IsLine = omega arith

silent-IsLine : IsLine (b'(' ∷ [])
silent-IsLine = omega arith

pub file-IsSection : All IsSection file
unfolding IsSection IsBody contains_entry search_param after body_texts body_text text_eq is_word
    is_space
file-IsSection = (
  (comment-IsLine, refl),
  (
    (
      tt,
      (refl, tt),
      entry-IsLine,
      (param-IsLine, (silent-IsLine, tt)),
      (refl, (refl, tt)),
      ((tt, (refl, tt), (refl, (refl, (refl, tt))), refl), (refl, tt)),
    ),
    tt,
  ),
)

pub file-rounds : rounds (parts file) ≤ 10
unfolding body_texts
file-rounds = omega arith

file_declares : declared (b'k' ∷ []) file ≡ (b'.' ∷ b'u' ∷ b'6' ∷ b'4' ∷ []) ∷ []
unfolding declared types text_eq
file_declares = refl
