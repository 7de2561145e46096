-- ===== src/Controller/Lifetime/Sound.antt =====
-- What is true of a stored status, however the writes interleave.
use Prim.Native.Nat.{◌^◌, ◌%◌}
use reloader_operator.Base.{
  ℕ, suc, ◌+◌, ◌≤◌, ◌++◌, All, All-middle, All-implies, ◌≡◌, List, ◌∷◌, arith,
}
use reloader_operator.Api.{ReloaderConfigStatus}
use reloader_operator.Platform.{Platform}
use reloader_operator.Controller.Status.WellFormed.{WellFormed}
use reloader_operator.Controller.Lifetime.{
  fresh_status, Writes, Pending, History, created, prepared, stale, accepted, refused, edited,
}
use reloader_operator.Controller.Lifetime.Extends.{Writes-Extends}

module _ (p : Platform) where
  fresh_status-WellFormed : WellFormed fresh_status
  fresh_status-WellFormed = record {
    conditions = tt;
    known = tt;
    hashes = tt;
    entries = tt;
    counts = tt;
    count = omega arith;
  }

  -- What is stored, where `n` items for resources were accepted.
  abbrev Sound : ReloaderConfigStatus → ℕ → Type 0
  Sound status n = WellFormed status × (status.reload_count ≡ n % 2 ^ 64)

  -- A write on its way is of a version that is stored or was, and keeps what is stored sound if it is
  -- of the version that is stored.
  abbrev Fits : ℕ → ℕ → Pending → Type 0
  Fits v n w = (w.version ≤ v) × (w.version ≡ v → Sound w.status (n + w.recorded))

  Fits-outdated : (v n m : ℕ) (w : Pending) → Fits v n w → Fits (suc v) m w
  Fits-outdated v n m w (old, fits) = (omega arith, λ same. absurd (omega arith))

  Writes-Sound :
      {old status : ReloaderConfigStatus} {k : ℕ} (n : ℕ)
      → Writes p old status k
      → Sound old n
      → Sound status (n + k)
  Writes-Sound n writes (formed, count) =
      let (keeps, counts) = Writes-Extends p writes in
      (keeps formed, omega (arith, count, counts formed.count))

  history :
      (v : ℕ) (status : ReloaderConfigStatus) (pending : List Pending) (n : ℕ)
      → History p v status pending n
      → Sound status n × All (Fits v n) pending
  history _ _ _ _ created = ((fresh_status-WellFormed, omega arith), tt)
  history v _ _ n (prepared {status = status} {pending = pending} status' k h writes) =
      let (sound, fit) = history v status pending n h in
      (sound, ((omega arith, λ same. Writes-Sound n writes sound), fit))
  history v status _ n (stale {pending = pending} w h old) =
      let (sound, fit) = history v status pending n h in
      (sound, ((omega arith, λ same. absurd (omega arith)), fit))
  history _ _ _ _ (accepted {v} {n} {status} before w after h same) =
      let (sound, fit) = history v status (before ++ (w ∷ after)) n h in
      let ((old, fits), others) = All-middle (Fits v n) before w after fit in
      (
        fits same,
        All-implies (Fits v n) (Fits (suc v) (n + w.recorded)) (before ++ after)
            (λ x. Fits-outdated v n (n + w.recorded) x) others,
      )
  history v status _ n (refused before w after h differs) =
      let (sound, fit) = history v status (before ++ (w ∷ after)) n h in
      (sound, (All-middle (Fits v n) before w after fit).1)
  history _ status pending n (edited {v} h) =
      let (sound, fit) = history v status pending n h in
      (sound, All-implies (Fits v n) (Fits (suc v) n) pending (λ x. Fits-outdated v n n x) fit)

  -- However the reconciliations, the status worker and other writers interleave, and however old the
  -- configs are that they read, with a server that accepts a write exactly if nothing was written since
  -- its config was read: the status that is stored is well formed (one condition of each type, of the
  -- three types that the operator sets, one hash under each key and one entry for each workload at most,
  -- counters that are bit patterns of 64 bits), and no item for a resource is lost or counted twice:
  -- the count of reloads is the number of those items in the writes that were accepted, modulo 2^64.
  pub History-Sound :
      {v : ℕ} {status : ReloaderConfigStatus} {pending : List Pending} {n : ℕ}
      → History p v status pending n
      → WellFormed status × (status.reload_count ≡ n % 2 ^ 64)
  History-Sound h = (history _ _ _ _ h).0
