-- ===== src/Index/Frames.antt =====
-- Frames that arrive one after the other.
use syncat.Prelude.{All, Bytes, Dict, insert, ◌≡◌, refl, true, none, List, [], ◌∷◌, ◌++◌, bytes_key}
use syncat.Reconcile.{FileInfo}
use syncat.Reconcile.Pass.{index_onto}
use syncat.Wire.{Message}
use syncat.Wire.Check.{validate_message}
use syncat.Index.Receive.{handle, receive, receive_all, PeerIndex}

-- The message passes `ValidateMessage`.
abbrev pub IsValid : Message → Type 0
IsValid m = validate_message m ≡ none

pub receive-valid : (m : Message) (w : PeerIndex) → IsValid m → receive true m w ≡ handle m w
unfolding receive
receive-valid m w v = rw (v, receive) refl

pub receive_all-append :
    (ms ns : List Message) (w : PeerIndex)
    → receive_all (ms ++ ns) w ≡ receive_all ns (receive_all ms w)
unfolding receive_all
receive_all-append [] ns w = refl
receive_all-append (m ∷ ms) ns w = receive_all-append ms ns (receive true m w).0

pub All-append {ℓ κ} :
    {A : Type ℓ} (P : A → Type κ) (xs ys : List A) → All P (xs ++ ys) → All P xs × All P ys
All-append P [] ys h = (tt, h)
All-append P (x ∷ xs) ys h = let (l, r) = All-append P xs ys h.1 in ((h.0, l), r)

pub index_onto-append :
    (m : Dict Bytes FileInfo) (xs ys : List FileInfo)
    → index_onto m (xs ++ ys) ≡ index_onto (index_onto m xs) ys
unfolding index_onto
index_onto-append m [] ys = refl
index_onto-append m (x ∷ xs) ys = index_onto-append (insert x.rel_path x m) xs ys
