-- ===== src/Fs/Namex.antt =====
-- namex of fs.c, over the inodes and directories it uses; namei and nameiparent are its two cases.
use xv.Common.{
  ℕ, zero, suc, ◌+◌, ◌<◌, ◌≡◌, refl, sym, ap, ap₂, ◌∙◌, fun_ext, arith, Bool, true, false, not,
  ◌&&◌, Option, none, some, List, [], ◌∷◌, map, take, length, ◌==◌, if◌then◌else◌, Outcome, ok,
  panic, ◌>>=◌,
}
use xv.Fs.Path.{dirsiz, slash, skip_slashes, element, after_element, skipelem, is_end}
use xv.Fs.Elements.{words, skipelem-none, skipelem-some, first_word, no_words, words-is_end}

-- What namex calls, on a state of the inodes; an inode is named by a number. `root` is
-- iget(ROOTDEV, ROOTINO), `cwd` is idup(myproc()->cwd), and `is_dir` is ip->type == T_DIR.
pub record InodeOps (S : Type 0) : Type 0 where
  pub root : S → Outcome (ℕ × S)
  pub cwd : S → Outcome (ℕ × S)
  pub ilock : ℕ → S → Outcome S
  pub is_dir : ℕ → S → Bool
  pub iunlock : ℕ → S → Outcome S
  pub iunlockput : ℕ → S → Outcome S
  pub iput : ℕ → S → Outcome S
  pub dirlookup : ℕ → (name : List ℕ) → S → Outcome (Option ℕ × S)

-- What namex returns, with none for 0, and what it leaves in `name`.
abbrev pub Found : Type 0 → Type 0
Found S = Option ℕ × List ℕ × S

module _ {S : Type 0} (ops : InodeOps S) where
  -- The body of the loop of namex, where `last` is *path == '\0', and `next` the rounds after it.
  unfoldable pub visit :
      (parent last : Bool) (name : List ℕ) (ip : ℕ)
      → S
      → (next : ℕ → S → Outcome (Found S)) → Outcome (Found S)
  visit parent last name ip s next = ops.ilock ip s >>= λ s1.
      let not_dir = ops.iunlockput ip s1 >>= λ s2. ok (none, name, s2) in
      let stop = ops.iunlock ip s1 >>= λ s2. ok (some ip, name, s2) in
      let go_on = ops.dirlookup ip name s1 >>= λ (found, s2). ops.iunlockput ip s2 >>= λ s3.
      elim found [ none ↦ ok (none, name, s3) | some ip' ↦ next ip' s3 ] in
      if not (ops.is_dir ip s1) then not_dir else if parent && last then stop else go_on

  -- namex after its loop
  unfoldable pub finish : (parent : Bool) (name : List ℕ) (ip : ℕ) → S → Outcome (Found S)
  finish parent name ip s =
      if parent then (ops.iput ip s >>= λ s'. ok (none, name, s')) else ok (some ip, name, s)

  -- The loop of namex and what comes after it; panic when the rounds do not suffice.
  unfoldable pub namex_from :
      (rounds : ℕ) (parent : Bool) (path name : List ℕ) (ip : ℕ) → S → Outcome (Found S)
  unfolding skipelem visit finish
  namex_from zero parent path name ip s = panic
  namex_from (suc rounds) parent path name ip s = elim (skipelem path) [
    | none ↦ finish parent name ip s
    | some r ↦
        visit parent (is_end r.1) r.0 ip s (λ ip' s'. namex_from rounds parent r.1 r.0 ip' s')
  ]

  -- iget of the root for a path that begins with a slash, else idup of the current directory
  unfoldable pub start : (path : List ℕ) → S → Outcome (ℕ × S)
  start [] s = ops.cwd s
  start (c ∷ path) s = if c == slash then ops.root s else ops.cwd s

  unfoldable pub namex : (parent : Bool) (path name : List ℕ) → S → Outcome (Found S)
  unfolding start namex_from
  namex parent path name s =
      start path s >>= λ (ip, s'). namex_from (length path + 1) parent path name ip s'

  -- A file that is to be a directory is locked for a lookup of `name`; then its reference is dropped.
  abbrev pub enter :
      (name : List ℕ) (ip : ℕ) → S → (next : ℕ → S → Outcome (Found S)) → Outcome (Found S)
  enter name ip s next = ops.ilock ip s >>= λ s1.
      let fails = ops.iunlockput ip s1 >>= λ s2. ok (none, name, s2) in
      let looks = ops.dirlookup ip name s1 >>= λ (found, s2). ops.iunlockput ip s2 >>= λ s3.
      elim found [ none ↦ ok (none, name, s3) | some ip' ↦ next ip' s3 ] in
      if not (ops.is_dir ip s1) then fails else looks

  -- A file that is to be a directory is given, with its reference.
  abbrev pub stay : (name : List ℕ) (ip : ℕ) → S → Outcome (Found S)
  stay name ip s = ops.ilock ip s >>= λ s1.
      let fails = ops.iunlockput ip s1 >>= λ s2. ok (none, name, s2) in
      let gives = ops.iunlock ip s1 >>= λ s2. ok (some ip, name, s2) in
      if not (ops.is_dir ip s1) then fails else gives

  -- The file that a list of names leads to from `ip`.
  unfoldable pub resolve : (names : List (List ℕ)) (name : List ℕ) (ip : ℕ) → S → Outcome (Found S)
  resolve [] name ip s = ok (some ip, name, s)
  resolve (w ∷ ws) name ip s = enter w ip s (λ ip' s'. resolve ws w ip' s')

  -- The directory for the last of a list of names; without a name there is none.
  unfoldable pub resolve_parent :
      (names : List (List ℕ)) (name : List ℕ) (ip : ℕ) → S → Outcome (Found S)
  resolve_parent [] name ip s = ops.iput ip s >>= λ s'. ok (none, name, s')
  resolve_parent (w ∷ []) name ip s = stay w ip s
  resolve_parent (w ∷ v ∷ ws) name ip s = enter w ip s (λ ip' s'. resolve_parent (v ∷ ws) w ip' s')

  abbrev pub follow :
      (parent : Bool) (names : List (List ℕ)) (name : List ℕ) (ip : ℕ) → S → Outcome (Found S)
  unfolding resolve resolve_parent
  follow parent names name ip s =
      if parent then resolve_parent names name ip s else resolve names name ip s

  follow-nil :
      (parent : Bool) (name : List ℕ) (ip : ℕ) (s : S)
      → finish parent name ip s ≡ follow parent [] name ip s
  unfolding finish resolve resolve_parent
  follow-nil true name ip s = refl
  follow-nil false name ip s = refl

  follow-cons :
      (parent : Bool) (w : List ℕ) (ws : List (List ℕ)) (name : List ℕ) (ip : ℕ) (s : S)
      → visit parent (is_end ws) w ip s (λ ip' s'. follow parent ws w ip' s')
        ≡ follow parent (w ∷ ws) name ip s
  unfolding visit resolve resolve_parent
  follow-cons false w ws name ip s = refl
  follow-cons true w [] name ip s = refl
  follow-cons true w (v ∷ ws) name ip s = refl

  namex_from-follow :
      (rounds : ℕ) (parent : Bool) (path name : List ℕ) (ip : ℕ) (s : S)
      → length path < rounds
      → namex_from rounds parent path name ip s
        ≡ follow parent (map (take dirsiz) (words path)) name ip s
  unfolding namex_from
  namex_from-follow zero parent path name ip s h = absurd (omega arith)
  namex_from-follow (suc rounds) parent path name ip s h =
      go (namex_from-follow rounds parent) (skip_slashes path) refl
    where
      go :
          ((path' name' : List ℕ) (ip' : ℕ) (s' : S)
            → length path' < rounds
            → namex_from rounds parent path' name' ip' s'
              ≡ follow parent (map (take dirsiz) (words path')) name' ip' s')
          → (p : List ℕ) → skip_slashes path ≡ p
          → namex_from (suc rounds) parent path name ip s
            ≡ follow parent (map (take dirsiz) (words path)) name ip s
      go later [] e =
          rw (skipelem-none path e, namex_from)
            (follow-nil parent name ip s
              ∙ sym (ap (λ ws. follow parent (map (take dirsiz) ws) name ip s) (no_words path e)))
      go later (c ∷ rest) e =
          let w = take dirsiz (element (c ∷ rest)) in
          let left = skip_slashes (after_element (c ∷ rest)) in
          let first = first_word path c rest e in
          rw (skipelem-some path c rest e, namex_from)
            (ap₂ (λ last next. visit parent last w ip s next)
                (words-is_end (after_element (c ∷ rest)))
                (fun_ext λ ip'. fun_ext λ s'. later left w ip' s' (omega (arith, h, first.0)))
              ∙ follow-cons parent w (map (take dirsiz) (words left)) name ip s
              ∙ sym (ap (λ ws. follow parent (map (take dirsiz) ws) name ip s) first.1))

  -- namex, whatever its calls do on inodes and directories, starts at the root for a path that begins
  -- with a slash, and else in the current directory. From there, with the words between the slashes of
  -- the path, each cut to DIRSIZ bytes: without nameiparent it gives the file that they lead to, where
  -- every file on the way is locked, has to be a directory, is searched for the next word, and is
  -- unlocked and put back; with nameiparent it gives, also where slashes end the path, the file that
  -- all words but the last lead to, which has to be a directory, unlocked and not put back, and 0 where
  -- there is no word. Its rounds are enough.
  pub namex-follow :
      (parent : Bool) (path name : List ℕ) (s : S)
      → namex parent path name s
        ≡ (start path s >>= λ (ip, s'). follow parent (map (take dirsiz) (words path)) name ip s')
  unfolding namex
  namex-follow parent path name s =
      ap (λ f. start path s >>= f)
        (fun_ext
          λ (ip, s'). namex_from-follow (length path + 1) parent path name ip s' (omega arith))
