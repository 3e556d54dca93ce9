-- ===== src/StreamIds/Interleaving.antt =====
-- streamidmapper.go under concurrent calls: the channel operations and the two locked parts are the
-- atomic steps, and any number of goroutines may stand between two of them.
use zdm_proxy.Prelude.{ℕ, ◌≡◌, Option, none, some, List, ◌∷◌, ◌++◌, ℤ}
use zdm_proxy.StreamIds.{StreamIdMapper, take_id, record_id, forget_id, put_id}

-- `taken` are the calls of GetNewIdFor that have read an id from the channel and not yet locked;
-- `released` are the calls of ReleaseId that have left the lock and not yet written to the channel.
pub record System : Type 0 where
  pub mapper : StreamIdMapper
  pub taken : List (ℕ × ℤ)
  pub released : List ℕ

-- A full channel drops the id.
abbrev pub after_put : StreamIdMapper → Option StreamIdMapper → StreamIdMapper
after_put m none = m
after_put m (some m') = m'

pub data Step (s t : System) : Type 0 where
  takes :
      (stream_id : ℤ) (id : ℕ) (m : StreamIdMapper)
      → take_id s.mapper ≡ some (id, m)
      → t ≡ record { mapper = m; taken = (id, stream_id) ∷ s.taken; released = s.released }
      → Step s t
  records :
      (before after : List (ℕ × ℤ)) (id : ℕ) (stream_id : ℤ)
      → s.taken ≡ before ++ ((id, stream_id) ∷ after)
      → t ≡ record {
        mapper = (record_id id stream_id s.mapper).0;
        taken = before ++ after;
        released = s.released;
      }
      → Step s t
  forgets :
      (id : ℕ) (original : ℤ) (m : StreamIdMapper)
      → forget_id id s.mapper ≡ some (original, m)
      → t ≡ record { mapper = m; taken = s.taken; released = id ∷ s.released }
      → Step s t
  puts :
      (before after : List ℕ) (id : ℕ)
      → s.released ≡ before ++ (id ∷ after)
      → t ≡ record {
        mapper = after_put s.mapper (put_id id s.mapper);
        taken = s.taken;
        released = before ++ after;
      }
      → Step s t

pub data Reach (s : System) : System → Type 0 where
  here : Reach s s
  next : {t u : System} → Reach s t → Step t u → Reach s u
