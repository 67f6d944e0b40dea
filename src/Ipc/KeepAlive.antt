-- ===== src/Ipc/KeepAlive.antt =====
-- keepAlive of internal/host/fs_watch.go: a hold on the event loop that can be taken and dropped.
use noderati.Prelude.{ℕ, ◌+◌, ◌-◌, Bool, true, false, not, ◌&&◌, if◌then◌else◌, ◌≡◌, arith}

-- `ops` counts the external operations that the hold has begun and not ended.
pub record KeepAlive : Type 0 where
  pub refed : Bool
  pub closed : Bool
  pub ops : ℕ

unfoldable pub new_keep_alive : Bool → KeepAlive
new_keep_alive persistent = record {
  refed = persistent;
  closed = false;
  ops = if persistent then 1 else 0;
}

unfoldable pub ref : KeepAlive → KeepAlive
ref k = if not k.refed && not k.closed then record k { refed = true; ops = k.ops + 1 } else k

unfoldable pub unref : KeepAlive → KeepAlive
unref k = if k.refed && not k.closed then record k { refed = false; ops = k.ops - 1 } else k

abbrev drop_ref : KeepAlive → KeepAlive
drop_ref k = if k.refed then record k { refed = false; ops = k.ops - 1 } else k

-- The hold, and whether this was the first call.
unfoldable pub release : KeepAlive → KeepAlive × Bool
release k = if k.closed then (k, false) else (drop_ref (record k { closed = true }), true)

-- One operation while it is taken, none while it is not, and none for good once it is released.
pub record IsHold (k : KeepAlive) : Type 0 where
  pub counted : k.ops ≡ (if k.refed then 1 else 0)
  pub released : k.closed ≡ true → k.refed ≡ false

pub new_keep_alive-IsHold : (persistent : Bool) → IsHold (new_keep_alive persistent)
unfolding new_keep_alive
new_keep_alive-IsHold persistent = ground arith

pub ref-IsHold : (k : KeepAlive) → IsHold k → IsHold (ref k)
unfolding ref
ref-IsHold k h = ground arith

pub unref-IsHold : (k : KeepAlive) → IsHold k → IsHold (unref k)
unfolding unref
unref-IsHold k h = ground arith

pub release-IsHold : (k : KeepAlive) → IsHold k → IsHold (release k).0
unfolding release
release-IsHold k h = ground arith

pub ref-closed : (k : KeepAlive) → (ref k).closed ≡ k.closed
unfolding ref
ref-closed k = ground arith

pub unref-closed : (k : KeepAlive) → (unref k).closed ≡ k.closed
unfolding unref
unref-closed k = ground arith
