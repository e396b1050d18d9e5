-- ===== src/Sh/Parse.antt =====
-- The recursive descent of sh.c. Each function takes the text and gives the command with the text
-- that is left. All recur on one fuel: a call and a round of a loop spend 1.
use xv.Common.{ℕ, zero, suc, ◌+◌, ◌*◌, List, [], ◌∷◌, ◌++◌, ◌==◌, leb, if◌then◌else◌, length}
use xv.Sh.Syntax.{
  max_args, o_rdonly, o_wronly, o_create, Cmd, exec, redircmd, pipecmd, listcmd, backcmd,
}
use xv.Sh.Token.{Token, end, symbol, append, word, gettoken, peek}
use xv.Sh.Result.{Result, done, panics, out_of_fuel, ◌>>=◌}

-- a redirection: its file, mode and file descriptor
abbrev pub Redir : Type 0
Redir = List ℕ × ℕ × ℕ

abbrev pub redirs_of : Token → List ℕ → List Redir
redirs_of (symbol c) file =
    if c == 60
    then (file, o_rdonly, 0) ∷ []
    else if c == 62
    then (file, o_wronly + o_create, 1) ∷ []
    else []
redirs_of append file = (file, o_wronly + o_create, 1) ∷ []
redirs_of end file = []
redirs_of (word w) file = []

abbrev pub wrap : Cmd → Redir → Cmd
wrap cmd (file, mode, fd) = redircmd cmd file mode fd

-- cmd = redircmd(cmd, …) for each redirection in turn
abbrev pub wrap_all : Cmd → List Redir → Cmd
wrap_all cmd [] = cmd
wrap_all cmd (r ∷ rs) = wrap_all (wrap cmd r) rs

-- "<>", "|)&;" and the others that are looked for
abbrev pub arrows : List ℕ
arrows = 60 ∷ 62 ∷ []

abbrev pub stops : List ℕ
stops = 124 ∷ 41 ∷ 38 ∷ 59 ∷ []

-- the file name of a redirection
abbrev pub expect_word : Token × List ℕ → Result (List ℕ × List ℕ)
expect_word (end, rest) = panics
expect_word (symbol c, rest) = panics
expect_word (append, rest) = panics
expect_word (word w, rest) = done (w, rest)

-- parseredirs, as the list of the redirections that it wraps around its command
unfoldable pub parseredirs : (fuel : ℕ) → List ℕ → Result (List Redir × List ℕ)
unfolding peek gettoken
parseredirs zero s = out_of_fuel
parseredirs (suc f) s =
    let (found, s₁) = peek arrows s in
    let (tok, s₂) = gettoken s₁ in
    let rest = expect_word (gettoken s₂) >>= λ (file, s₃).
    parseredirs f s₃ >>= λ (rs, s₄). done (redirs_of tok file ++ rs, s₄) in
    if found then rest else done ([], s₁)

-- the words from here on, the redirections among them in their order, and the text that is left
abbrev pub Args : Type 0
Args = List (List ℕ) × List Redir × List ℕ

-- One round of the loop of parseexec, with the token that it has: `redirs` is parseredirs, and
-- `args` the rest of the loop.
abbrev pub add_arg :
    (redirs : List ℕ → Result (List Redir × List ℕ)) (args : List ℕ → Result Args)
    → (argc : ℕ) → Token × List ℕ
    → Result Args
add_arg redirs args argc (end, s) = done ([], [], s)
add_arg redirs args argc (symbol c, s) = panics
add_arg redirs args argc (append, s) = panics
add_arg redirs args argc (word w, s) =
    let rest = redirs s >>= λ (rs, s₁). args s₁ >>= λ (ws, rs', s₂). done (w ∷ ws, rs ++ rs', s₂) in
    if leb max_args (argc + 1) then panics else rest

-- The loop of parseexec. `ret` starts as the command that is being filled in, and parseredirs wraps
-- it, so the words and the redirections are collected apart. `argc` words are there already.
unfoldable pub parseargs : (fuel argc : ℕ) → List ℕ → Result Args
unfolding peek gettoken parseredirs
parseargs zero argc s = out_of_fuel
parseargs (suc f) argc s =
    let (stop, s₁) = peek stops s in
    let more = add_arg (parseredirs f) (parseargs f (argc + 1)) argc (gettoken s₁) in
    if stop then done ([], [], s₁) else more

-- parseexec where no block begins
unfoldable pub parsesimple : (fuel : ℕ) → List ℕ → Result (Cmd × List ℕ)
unfolding parseredirs parseargs
parsesimple f s = parseredirs f s >>= λ (rs, s₁).
    parseargs f 0 s₁ >>= λ (ws, rs', s₂). done (wrap_all (exec ws) (rs ++ rs'), s₂)

-- while(peek(ps, es, "&")) cmd = backcmd(cmd)
unfoldable pub parsebacks : (fuel : ℕ) → Cmd → List ℕ → Result (Cmd × List ℕ)
unfolding peek gettoken
parsebacks zero cmd s = out_of_fuel
parsebacks (suc f) cmd s =
    let (found, s₁) = peek (38 ∷ []) s in
    let rest = parsebacks f (backcmd cmd) (gettoken s₁).1 in if found then rest else done (cmd, s₁)

unfoldable mutual
  unfolding peek gettoken parseredirs parsesimple parsebacks

  pub parseline : (fuel : ℕ) → List ℕ → Result (Cmd × List ℕ)
  parseline zero s = out_of_fuel
  parseline (suc f) s = parsepipe f s >>= λ (cmd, s₁). parsebacks f cmd s₁ >>= λ (cmd', s₂).
      let (found, s₃) = peek (59 ∷ []) s₂ in
      let rest = parseline f (gettoken s₃).1 >>= λ (right, s₄). done (listcmd cmd' right, s₄) in
      if found then rest else done (cmd', s₃)

  pub parsepipe : (fuel : ℕ) → List ℕ → Result (Cmd × List ℕ)
  parsepipe zero s = out_of_fuel
  parsepipe (suc f) s = parseexec f s >>= λ (cmd, s₁).
      let (found, s₂) = peek (124 ∷ []) s₁ in
      let rest = parsepipe f (gettoken s₂).1 >>= λ (right, s₃). done (pipecmd cmd right, s₃) in
      if found then rest else done (cmd, s₂)

  pub parseexec : (fuel : ℕ) → List ℕ → Result (Cmd × List ℕ)
  parseexec zero s = out_of_fuel
  parseexec (suc f) s =
      let (found, s₁) = peek (40 ∷ []) s in
      let block = parseblock f s₁ in
      let simple = parsesimple f s₁ in if found then block else simple

  pub parseblock : (fuel : ℕ) → List ℕ → Result (Cmd × List ℕ)
  parseblock zero s = out_of_fuel
  parseblock (suc f) s =
      let (found, s₁) = peek (40 ∷ []) s in
      let rest = parseline f (gettoken s₁).1 >>= λ (cmd, s₂).
      let (closed, s₃) = peek (41 ∷ []) s₂ in
      let redirs = parseredirs f (gettoken s₃).1 >>= λ (rs, s₄). done (wrap_all cmd rs, s₄) in
      if closed then redirs else panics in
      if found then rest else panics

-- parsecmd with a fuel that is enough for the text; nulterminate then marks the ends of the words,
-- which the model has as lists.
unfoldable pub parsecmd : List ℕ → Result Cmd
unfolding peek parseline
parsecmd s = parseline (4 * length s + 4) s >>= λ (cmd, s₁).
    let (_, s₂) = peek [] s₁ in elim s₂ [ [] ↦ done cmd | c ∷ rest ↦ panics ]
