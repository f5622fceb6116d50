-- ===== src/Wiiload/Args/Joined.antt =====
-- What the block of arguments holds.
use hbc.Base.{
  ℕ, zero, suc, ◌+◌, ◌-◌, ◌≤◌, ◌<◌, ◌≡◌, refl, sym, ap, ◌∙◌, subst, arith, true, false, some, List,
  [], ◌∷◌, ◌++◌, if◌then◌else◌, ◌==◌, ltb, leb, length, take, drop, length-take, length-drop,
  length-append, Bool-cases, inl, inr,
}
use hbc.Base.Word.{sub16}
use hbc.Apps.Text.{Text}
use hbc.Wiiload.Args.{
  max_args_len, Args, store_at, snprintf, past, ArgsLoop, stored, too_long, out_of_bounds, put_args,
  ArgsBlock, block, refused, stray_write, terminate, with_args, args_block,
}

-- Each text with a 0 behind it.
abbrev pub joined : List Text → List ℕ
joined [] = []
joined (t ∷ ts) = t ++ (0 ∷ joined ts)

take_all : (n : ℕ) (xs : List ℕ) → length xs ≤ n → take n xs ≡ xs
take_all zero [] less = refl
take_all zero (x ∷ xs) less = absurd (omega arith)
take_all (suc n) [] less = refl
take_all (suc n) (x ∷ xs) less = ap (λ l. x ∷ l) (take_all n xs (omega arith))

take-append : (xs ys : List ℕ) (n : ℕ) → n ≡ length xs → take n (xs ++ ys) ≡ xs
take-append [] ys zero e = refl
take-append [] ys (suc n) e = absurd (omega arith)
take-append (x ∷ xs) ys zero e = absurd (omega arith)
take-append (x ∷ xs) ys (suc n) e = ap (λ l. x ∷ l) (take-append xs ys n (omega arith))

append_assoc : (a b c : List ℕ) → (a ++ b) ++ c ≡ a ++ (b ++ c)
append_assoc [] b c = refl
append_assoc (x ∷ a) b c = ap (λ l. x ∷ l) (append_assoc a b c)

-- The array holds `text` before `pos`, and `left` counts the rest.
record Filled (text : List ℕ) (s : Args) : Type 0 where
  pub size : length s.cells ≡ max_args_len
  pub pos : s.pos ≡ length text
  pub room : s.pos + s.left ≡ max_args_len
  pub held : take s.pos s.cells ≡ text

store_at_held :
    (pos : ℕ) (bytes cells : List ℕ)
    → pos + length bytes ≤ length cells
    → (cells' : List ℕ) × (store_at pos bytes cells ≡ some cells')
      × (length cells' ≡ length cells)
      × (take (pos + length bytes) cells' ≡ take pos cells ++ bytes)
unfolding store_at
store_at_held pos bytes cells fits =
    let room : leb (pos + length bytes) (length cells) ≡ true = ground arith in
    let front = length-take pos cells in
    let whole = length-append (take pos cells) bytes in
    let back = length-drop (pos + length bytes) cells in
    let all = length-append (take pos cells ++ bytes) (drop (pos + length bytes) cells) in
    let assoc = append_assoc (take pos cells) bytes (drop (pos + length bytes) cells) in
    (
      take pos cells ++ (bytes ++ drop (pos + length bytes) cells),
      rw (room, store_at) refl,
      subst (λ l. length l ≡ length cells) assoc (omega arith),
      subst (λ l. take (pos + length bytes) l ≡ take pos cells ++ bytes) assoc
          (take-append (take pos cells ++ bytes) _ (pos + length bytes) (omega arith)),
    )

-- A text that fits.
snprintf-Filled :
    (text : List ℕ) (t : Text) (s : Args)
    → Filled text s
    → length t < s.left
    → (cells : List ℕ) × (snprintf t s ≡ some cells)
      × Filled (text ++ (t ++ (0 ∷ []))) (past t cells s)
unfolding snprintf
snprintf-Filled text t s f less =
    let size = f.size in
    let pos = f.pos in
    let room = f.room in
    let n = length-append t (0 ∷ []) in
    let some_left : (s.left == 0) ≡ false = ground arith in
    let whole = take_all (s.left - 1) t (omega arith) in
    let (cells, e, l, held) = store_at_held s.pos (t ++ (0 ∷ [])) s.cells (omega arith) in
    let total = length-append text (t ++ (0 ∷ [])) in
    (
      cells,
      rw (some_left, whole) e,
      record {
        size = l ∙ size;
        pos = omega arith;
        room = omega arith;
        held =
            subst (λ k. take (s.pos + k) cells ≡ text ++ (t ++ (0 ∷ []))) n
              (subst (λ x. take (s.pos + length (t ++ (0 ∷ []))) cells ≡ x ++ (t ++ (0 ∷ [])))
                f.held held);
      },
    )

-- A text that is cut.
snprintf_cut :
    (text : List ℕ) (t : Text) (s : Args)
    → Filled text s
    → s.left ≤ length t
    → (cells : List ℕ) × (snprintf t s ≡ some cells)
unfolding snprintf
snprintf_cut text t s f more = elim (Bool-cases (s.left == 0)) [
  | inl e ↦ rw e (s.cells, refl)
  | inr e ↦
      let size = f.size in
      let room = f.room in
      let n = length-append (take (s.left - 1) t) (0 ∷ []) in
      let k = length-take (s.left - 1) t in
      let (cells, g, _, _) =
        store_at_held s.pos (take (s.left - 1) t ++ (0 ∷ [])) s.cells (ground arith) in
      rw e (cells, g)
]

-- What `put_args` does behind the text so far.
data PutRun (text : List ℕ) (ts : List Text) : ArgsLoop → Type 0 where
  all_stored : (s : Args) → Filled (text ++ joined ts) s → PutRun text ts (stored s)
  stopped : max_args_len < length (text ++ joined ts) → PutRun text ts too_long

append_nil : (a : List ℕ) → a ++ [] ≡ a
append_nil [] = refl
append_nil (x ∷ a) = ap (λ l. x ∷ l) (append_nil a)

joined_next :
    (text : List ℕ) (t : Text) (ts : List Text)
    → (text ++ (t ++ (0 ∷ []))) ++ joined ts ≡ text ++ joined (t ∷ ts)
joined_next text t ts =
    append_assoc text (t ++ (0 ∷ [])) (joined ts)
    ∙ ap (λ l. text ++ l) (append_assoc t (0 ∷ []) (joined ts))

PutRun-next :
    (text : List ℕ) (t : Text) (ts : List Text) {o : ArgsLoop}
    → PutRun (text ++ (t ++ (0 ∷ []))) ts o
    → PutRun text (t ∷ ts) o
PutRun-next text t ts (all_stored s f) =
    all_stored s (subst (λ l. Filled l s) (joined_next text t ts) f)
PutRun-next text t ts (stopped more) =
    stopped (subst (λ l. max_args_len < length l) (joined_next text t ts) more)

put_args-PutRun :
    (text : List ℕ) (ts : List Text) (s : Args) → Filled text s → PutRun text ts (put_args ts s)
unfolding put_args
put_args-PutRun text [] s f = all_stored s (subst (λ l. Filled l s) (sym (append_nil text)) f)
put_args-PutRun text (t ∷ ts) s f = elim (Bool-cases (leb s.left (length t))) [
  | inl long ↦
      let (cells, e) = snprintf_cut text t s f (ground arith) in
      let pos = f.pos in
      let room = f.room in
      let a = length-append text (joined (t ∷ ts)) in
      let b = length-append t (0 ∷ joined ts) in rw (e, put_args) (rw long (stopped (ground arith)))
  | inr short ↦
      let (cells, e, g) = snprintf-Filled text t s f (ground arith) in
      let rest = put_args-PutRun (text ++ (t ++ (0 ∷ []))) ts (past t cells s) g in
      rw (e, put_args) (rw short (PutRun-next text t ts rest))
]

-- The block is the joined texts and one more 0, and its length counts both; or they do not fit.
pub data BlockRun (ts : List Text) : ArgsBlock → Type 0 where
  fits :
      (cells : List ℕ) (args_len : ℕ)
      → args_len ≡ length (joined ts) + 1
      → args_len ≤ max_args_len
      → take args_len cells ≡ joined ts ++ (0 ∷ [])
      → BlockRun ts (block cells args_len)
  does_not_fit : max_args_len < length (joined ts) + 1 → BlockRun ts refused

terminate-BlockRun :
    (ts : List Text) (s : Args) → Filled (joined ts) s → 1 ≤ s.left → BlockRun ts (terminate s)
unfolding terminate
terminate-BlockRun ts s f some_left =
    let size = f.size in
    let pos = f.pos in
    let room = f.room in
    let (cells, e, l, held) = store_at_held s.pos (0 ∷ []) s.cells (omega arith) in
    let same : sub16 (max_args_len + 1) s.left ≡ s.pos + 1 = omega arith in
    rw (e, terminate)
      (fits cells (sub16 (max_args_len + 1) s.left) (omega arith) (omega arith) (
        subst (λ k. take k cells ≡ joined ts ++ (0 ∷ [])) (sym same)
          (subst (λ x. take (s.pos + 1) cells ≡ x ++ (0 ∷ [])) f.held held)))

with_args-BlockRun :
    (name : Text) (rest : List Text) (s : Args)
    → Filled (name ++ (0 ∷ [])) s
    → 1 ≤ s.left
    → BlockRun (name ∷ rest) (with_args rest s)
unfolding with_args
with_args-BlockRun name [] s f some_left = terminate-BlockRun (name ∷ []) s f some_left
with_args-BlockRun name (t ∷ ts) s f some_left =
    by_run (put_args-PutRun (name ++ (0 ∷ [])) (t ∷ ts) s f)
  where
    answer : ArgsLoop → ArgsBlock
    answer o = elim o [
      | out_of_bounds ↦ stray_write
      | too_long ↦ refused
      | stored s' ↦ if ltb s'.left 1 then refused else terminate s'
    ]

    all : (name ++ (0 ∷ [])) ++ joined (t ∷ ts) ≡ joined (name ∷ (t ∷ ts))
    all = append_assoc name (0 ∷ []) (joined (t ∷ ts))

    by_run :
        {o : ArgsLoop}
        → PutRun (name ++ (0 ∷ [])) (t ∷ ts) o
        → BlockRun (name ∷ (t ∷ ts)) (answer o)
    by_run (stopped more) =
        does_not_fit (let m = subst (λ l. max_args_len < length l) all more in omega arith)
    by_run (all_stored s' g) =
        let h = subst (λ l. Filled l s') all g in
        let pos = h.pos in
        let room = h.room in
        elim (Bool-cases (ltb s'.left 1)) [
          | inl e ↦ rw e (does_not_fit (ground arith))
          | inr e ↦ rw e (terminate-BlockRun (name ∷ (t ∷ ts)) s' h (ground arith))
        ]

-- For a name of at most 1022 bytes, the block of arguments is the name and the arguments, a 0
-- behind each, and one more 0, with a length that counts all of it, if that is at most
-- MAX_ARGS_LEN; otherwise main exits. Nothing is written outside of the array.
pub args_block-BlockRun :
    (cells : List ℕ) (name : Text) (rest : List Text)
    → length cells ≡ max_args_len
    → length name + 2 ≤ max_args_len
    → BlockRun (name ∷ rest) (args_block cells name rest)
unfolding args_block
args_block-BlockRun cells name rest size short =
    let s : Args = record { cells = cells; pos = 0; left = max_args_len } in
    let (cells', e, f) =
      snprintf-Filled [] name s (record { size = size; pos = refl; room = refl; held = refl })
        (omega arith) in
    rw (e, args_block) (with_args-BlockRun name rest (past name cells' s) f (omega arith))
