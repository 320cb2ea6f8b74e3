-- ===== src/Paths.antt =====
-- Path names of kernel/fs/fs.c: path_next_element and the walk of fs_find_parent_inode. A string is
-- the list of its characters without the NUL. An inode is a number; whether it is a directory and
-- what the file system's `lookup` answers are arguments. Locks and the inode cache's counts are not
-- part of this model.
pub mod Walk
mod Tests
use operating_system_osv.Base.{
  ℕ, zero, suc, List, [], ◌∷◌, Option, none, some, Bool, true, false, ◌==◌, if◌then◌else◌, take,
  Err, ftype,
}

abbrev pub slash : ℕ
slash = 47

abbrev pub max_filename_len : ℕ
max_filename_len = 64

pub skip_slashes : List ℕ → List ℕ
skip_slashes [] = []
skip_slashes (c ∷ cs) = let rest = skip_slashes cs in if c == slash then rest else c ∷ cs

pub element_of : List ℕ → List ℕ
element_of [] = []
element_of (c ∷ cs) = let rest = element_of cs in if c == slash then [] else c ∷ rest

pub after_element : List ℕ → List ℕ
after_element [] = []
after_element (c ∷ cs) = let rest = after_element cs in if c == slash then c ∷ cs else rest

-- The element written to `name`, cut to 63 characters, and the returned rest of the path.
pub path_next_element : List ℕ → List ℕ × List ℕ
unfolding skip_slashes element_of after_element
path_next_element path =
    let p = skip_slashes path in (take 63 (element_of p), skip_slashes (after_element p))

-- What `lookup` answers, and what fs_find_parent_inode does: the parent and the last name.
pub data Lookup : Type 0 where
  inode : ℕ → Lookup
  missing : Err → Lookup

pub data Parent : Type 0 where
  parent : ℕ → List ℕ → Parent
  fails : Err → Parent

module _ (is_dir : ℕ → Bool) (lookup : ℕ → List ℕ → Lookup) where
  go_on : (ℕ → Option Parent) → Lookup → Option Parent
  go_on next (missing e) = some (fails e)
  go_on next (inode i) = next i

  step : (ℕ → Option Parent) → ℕ → List ℕ → List ℕ → Option Parent
  unfolding go_on
  step next curr name [] = some (parent curr name)
  step next curr name (c ∷ cs) = go_on next (lookup curr name)

  -- The loop, on fuel; `none` is too little of it.
  pub find_parent : ℕ → ℕ → List ℕ → Option Parent
  unfolding step path_next_element
  find_parent zero curr path = none
  find_parent (suc fuel) curr path =
      let (name, rest) = path_next_element path in
      let next : ℕ → Option Parent = λ i. find_parent fuel i rest in
      if is_dir curr then step next curr name rest else some (fails ftype)
