-- ===== src/Wiiload/Args.antt =====
-- The block of arguments that `main` sends: the file's name, and what follows it on the command line.
pub mod Joined
use hbc.Base.{
  ℕ, zero, suc, ◌+◌, ◌-◌, ◌%◌, ◌^◌, Bool, true, false, Option, none, some, List, [], ◌∷◌, ◌++◌,
  if◌then◌else◌, ◌==◌, ltb, leb, length, take, drop,
}
use hbc.Base.Word.{sub16}
use hbc.Apps.Text.{Text}

abbrev pub max_args_len : ℕ
max_args_len = 1024

-- `args`, `arg_pos` as an index into it, and `args_left`.
pub record Args : Type 0 where
  pub cells : List ℕ
  pub pos : ℕ
  pub left : ℕ

-- `none` when it would write outside of the array.
unfoldable pub store_at : ℕ → List ℕ → List ℕ → Option (List ℕ)
store_at pos bytes cells =
    if leb (pos + length bytes) (length cells)
    then some (take pos cells ++ (bytes ++ drop (pos + length bytes) cells))
    else none

-- `snprintf (arg_pos, args_left, "%s", text)`: what is too long is cut, with a 0 behind it.
unfoldable pub snprintf : Text → Args → Option (List ℕ)
unfolding store_at
snprintf text s =
    if s.left == 0
    then some s.cells
    else store_at s.pos (take (s.left - 1) text ++ (0 ∷ [])) s.cells

-- `arg_pos += c + 1` and `args_left -= c + 1`.
abbrev pub past : Text → List ℕ → Args → Args
past text cells s = record {
  cells = cells;
  pos = s.pos + (length text + 1);
  left = sub16 s.left (length text + 1);
}

pub data ArgsLoop : Type 0 where
  stored : Args → ArgsLoop
  too_long out_of_bounds : ArgsLoop

unfoldable pub put_args : List Text → Args → ArgsLoop
unfolding snprintf
put_args [] s = stored s
put_args (t ∷ ts) s = elim (snprintf t s) [
  | none ↦ out_of_bounds
  | some cells ↦ elim (leb s.left (length t)) [
    | true ↦ too_long
    | false ↦ put_args ts (past t cells s)
  ]
]

-- `args` and `args_len`, or the exit with a message, or a write outside of `args`.
pub data ArgsBlock : Type 0 where
  block : List ℕ → ℕ → ArgsBlock
  refused stray_write : ArgsBlock

-- `arg_pos[0] = 0`, and the length.
unfoldable pub terminate : Args → ArgsBlock
unfolding store_at
terminate s = elim (store_at s.pos (0 ∷ []) s.cells) [
  | none ↦ stray_write
  | some cells ↦ block cells (sub16 (max_args_len + 1) s.left)
]

-- `if (argc > 2)`, and behind it.
unfoldable pub with_args : List Text → Args → ArgsBlock
unfolding put_args terminate
with_args [] s = terminate s
with_args (t ∷ ts) s = elim (put_args (t ∷ ts) s) [
  | out_of_bounds ↦ stray_write
  | too_long ↦ refused
  | stored s' ↦ if ltb s'.left 1 then refused else terminate s'
]

-- From the first `snprintf` on; `cells` is what the array holds before.
unfoldable pub args_block : List ℕ → Text → List Text → ArgsBlock
unfolding snprintf with_args
args_block cells name rest =
    let s : Args = record { cells = cells; pos = 0; left = max_args_len } in
    elim (snprintf name s) [
      | none ↦ stray_write
      | some cells' ↦ with_args rest (past name cells' s)
    ]
