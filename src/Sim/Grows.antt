-- ===== src/Sim/Grows.antt =====
-- What the changes of an image keep: its nodes, its files and its directories (src/sim.rs).
use fstx.Base.{
  ℕ, List, Option, none, some, true, nat_eq, list_eq, ◌≡◌, refl, sym, ap, ◌∙◌, arith, list_ord,
  nat_ord, ok,
}
use fstx.Path.{Name}
use fstx.Sim.{Node, file_node, dir_node, symlink_node, Image, Entries, node_at, change_entries}
use fstx.Sim.Crash.{ensure_node}
use fstx.Sim.Calls.{is_dir_node, file_bytes}
use fstx.Sim.Namespace.{with_entries, node_at-change_entries, names_of, assign, take_away}
use fstx.Sim.Agrees.{is_node, or_bare, node_at-ensure_node}

-- The image that an entry is inserted into.
abbrev pub ready : Image → ℕ → ℕ → Image → Image
ready vol d ino img = ensure_node vol ino (ensure_node vol d img)

-- Every entry stands for a node of the image.
unfoldable pub IsClosed : Image → Type 0
IsClosed img =
    (d : ℕ) (n : Name) (i : ℕ) → names_of img d n ≡ some i → is_node (node_at i img) ≡ true

-- The files of the one image are files of the other, with the same data.
unfoldable pub KeepsFiles : Image → Image → Type 0
KeepsFiles img img' =
    (i : ℕ) (b : List ℕ) → file_bytes (node_at i img) ≡ ok b → file_bytes (node_at i img') ≡ ok b

-- Nodes stay nodes.
unfoldable pub Grows : Image → Image → Type 0
Grows img img' = (i : ℕ) → is_node (node_at i img) ≡ true → is_node (node_at i img') ≡ true

is_node-with_entries :
    (f : Entries → Entries) (found : Option Node) → is_node (with_entries f found) ≡ is_node found
unfolding is_node with_entries
is_node-with_entries f none = refl
is_node-with_entries f (some symlink_node) = refl
is_node-with_entries f (some (file_node b m)) = refl
is_node-with_entries f (some (dir_node es m)) = refl

pub is_node-change_entries :
    (d : ℕ) (f : Entries → Entries) (img : Image) (i : ℕ)
    → is_node (node_at i (change_entries d f img)) ≡ is_node (node_at i img)
is_node-change_entries d f img i =
    rw (node_at-change_entries d img f i) (ground (arith, is_node-with_entries f (node_at d img)))

file_bytes-with_entries :
    (f : Entries → Entries) (found : Option Node) (b : List ℕ)
    → file_bytes found ≡ ok b
    → file_bytes (with_entries f found) ≡ ok b
unfolding with_entries file_bytes
file_bytes-with_entries f none b h = h
file_bytes-with_entries f (some symlink_node) b h = h
file_bytes-with_entries f (some (file_node c m)) b h = h
file_bytes-with_entries f (some (dir_node es m)) b h = cc

pub KeepsFiles-change_entries :
    (d : ℕ) (f : Entries → Entries) (img : Image) → KeepsFiles img (change_entries d f img)
unfolding KeepsFiles
KeepsFiles-change_entries d f img i b h =
    rw (node_at-change_entries d img f i)
      (ground (arith, file_bytes-with_entries f (node_at d img) b))

is_dir_node-with_entries :
    (f : Entries → Entries) (found : Option Node)
    → is_dir_node (with_entries f found) ≡ is_dir_node found
unfolding with_entries is_dir_node
is_dir_node-with_entries f none = refl
is_dir_node-with_entries f (some symlink_node) = refl
is_dir_node-with_entries f (some (file_node c m)) = refl
is_dir_node-with_entries f (some (dir_node es m)) = refl

pub is_dir_node-change_entries :
    (d : ℕ) (f : Entries → Entries) (img : Image) (i : ℕ)
    → is_dir_node (node_at i (change_entries d f img)) ≡ is_dir_node (node_at i img)
is_dir_node-change_entries d f img i =
    rw (node_at-change_entries d img f i)
      (ground (arith, is_dir_node-with_entries f (node_at d img)))

-- Directories stay directories.
unfoldable pub KeepsDirs : Image → Image → Type 0
KeepsDirs img img' =
    (i : ℕ) → is_dir_node (node_at i img) ≡ true → is_dir_node (node_at i img') ≡ true

pub IsClosed-assign :
    (d : ℕ) (name : Name) (ino : ℕ) (img img' : Image)
    → names_of img' ≡ assign d name (some ino) (names_of img)
    → Grows img img'
    → is_node (node_at ino img') ≡ true
    → IsClosed img
    → IsClosed img'
unfolding IsClosed Grows assign
IsClosed-assign d name ino img img' same grows there closed e m i h =
    let h' : assign d name (some ino) (names_of img) e m ≡ some i =
      ap (λ f. f e m) (sym same) ∙ h in
    ground (arith, grows i, closed e m i)

pub IsClosed-take_away :
    (d : ℕ) (name : Name) (ino : ℕ) (img img' : Image)
    → names_of img' ≡ take_away d name ino (names_of img)
    → Grows img img'
    → IsClosed img
    → IsClosed img'
unfolding IsClosed Grows take_away
IsClosed-take_away d name ino img img' same grows closed e m i h =
    let h' : take_away d name ino (names_of img) e m ≡ some i = ap (λ f. f e m) (sym same) ∙ h in
    grows i (closed e m i (ground arith))

module _ (vol : Image) where
  pub Grows-ensure_node : (i : ℕ) (img : Image) → Grows img (ensure_node vol i img)
  unfolding Grows is_node
  Grows-ensure_node i img e h = rw (node_at-ensure_node vol i img e) (ground arith)

  pub is_node-ensured : (i : ℕ) (img : Image) → is_node (node_at i (ensure_node vol i img)) ≡ true
  unfolding is_node
  is_node-ensured i img = rw (node_at-ensure_node vol i img i) (ground arith)

  or_bare-file :
      (found other : Option Node) (b : List ℕ)
      → file_bytes found ≡ ok b
      → file_bytes (some (or_bare found other)) ≡ ok b
  unfolding or_bare file_bytes
  or_bare-file none other b h = cc
  or_bare-file (some n) other b h = h

  pub KeepsFiles-ensure_node : (i : ℕ) (img : Image) → KeepsFiles img (ensure_node vol i img)
  unfolding KeepsFiles
  KeepsFiles-ensure_node i img e b h =
      rw (node_at-ensure_node vol i img e)
        (ground (arith, or_bare-file (node_at i img) (node_at i vol) b))

  or_bare-dir :
      (found other : Option Node)
      → is_dir_node found ≡ true
      → is_dir_node (some (or_bare found other)) ≡ true
  unfolding or_bare is_dir_node
  or_bare-dir none other h = cc
  or_bare-dir (some n) other h = h

  pub KeepsDirs-ensure_node : (i : ℕ) (img : Image) → KeepsDirs img (ensure_node vol i img)
  unfolding KeepsDirs
  KeepsDirs-ensure_node i img e h =
      rw (node_at-ensure_node vol i img e)
        (ground (arith, or_bare-dir (node_at i img) (node_at i vol)))
