-- ===== src/HashMap/Persist/Atomic.antt =====
-- The snapshot file is replaced as a whole or not at all.
use Prim.Native.String.{len}
use text.Mathlib.TextPositions.{len-append}
use scalability_engineering.Prelude.{
  ℕ, zero, suc, ◌+◌, ◌≡◌, ◌≢◌, refl, sym, ap, ◌∙◌, Bool, true, false, some, String, if◌then◌else◌,
  arith, Bool-cases, inl, inr,
}
use scalability_engineering.HashMap.Persist.{
  Disk, publish, fill, temp_of, write_snapshot_to_disk, attempts,
}

-- What the code relies on: a call changes at most the files that it names; Encode on a file that
-- was just created, without an error, makes it decode to the same value; Sync, without an error,
-- and Close keep the content; Rename moves the whole content, or, with an error, nothing.
pub record IsDisk {F S : Type 0} (D : Disk F S) : Type 0 where
  pub mkdir_all-read : (f : F) (d p : String) → D.read (D.mkdir_all f d).0 p ≡ D.read f p
  pub create-read : (f : F) (p q : String) → p ≢ q → D.read (D.create f p).0 q ≡ D.read f q
  pub encode-read :
      (f : F) (p q : String) (s : S) → p ≢ q → D.read (D.encode f p s).0 q ≡ D.read f q
  pub encode-same :
      (f : F) (p : String) (s : S)
      → (D.create f p).1 ≡ true
      → (D.encode (D.create f p).0 p s).1 ≡ true
      → D.read (D.encode (D.create f p).0 p s).0 p ≡ some s
  pub sync-read : (f : F) (p q : String) → p ≢ q → D.read (D.sync f p).0 q ≡ D.read f q
  pub sync-same :
      (f : F) (p : String) → (D.sync f p).1 ≡ true → D.read (D.sync f p).0 p ≡ D.read f p
  pub close-read : (f : F) (p q : String) → D.read (D.close f p) q ≡ D.read f q
  pub remove-read : (f : F) (p q : String) → p ≢ q → D.read (D.remove f p) q ≡ D.read f q
  pub rename-moved :
      (f : F) (p q : String) → (D.rename f p q).1 ≡ true → D.read (D.rename f p q).0 q ≡ D.read f p
  pub rename-failed :
      (f : F) (p q r : String)
      → (D.rename f p q).1 ≡ false
      → D.read (D.rename f p q).0 r ≡ D.read f r
  pub rename-read :
      (f : F) (p q r : String) → p ≢ r → q ≢ r → D.read (D.rename f p q).0 r ≡ D.read f r

temp_of-other : (path : String) → temp_of path ≢ path
unfolding temp_of
temp_of-other path e = absurd (omega (arith, sym (len-append path ".tmp") ∙ ap len e))

module _ {F S : Type 0} (D : Disk F S) (I : IsDisk D) where
  -- The file at `path` holds the snapshot if the write succeeded, and what it held if not; only the
  -- temporary file beside it has changed too.
  pub record Written (f : F) (path : String) (s : S) (r : F × Bool) : Type 0 where
    pub target : D.read r.0 path ≡ (if r.1 then some s else D.read f path)
    pub others : (q : String) → temp_of path ≢ q → path ≢ q → D.read r.0 q ≡ D.read f q

  module _ (f : F) (path : String) (s : S) where
    abbrev temp : String
    temp = temp_of path

    publish-Written :
        (g : F)
        → D.read g temp ≡ some s
        → ((q : String) → temp ≢ q → D.read g q ≡ D.read f q)
        → Written f path s (publish D g temp path)
    unfolding publish
    publish-Written g held same = elim (Bool-cases (D.rename g temp path).1) [
      | inl e ↦ rw e (record {
        target = I.close-read _ temp path ∙ I.rename-moved g temp path e ∙ held;
        others = λ q a b. I.close-read _ temp q ∙ I.rename-read g temp path q a b ∙ same q a;
      })
      | inr e ↦ rw e (record {
        target =
            I.close-read _ temp path
            ∙ I.remove-read _ temp path (temp_of-other path)
            ∙ I.rename-failed g temp path path e
            ∙ same path (temp_of-other path);
        others = λ q a b.
            I.close-read _ temp q
            ∙ I.remove-read _ temp q a
            ∙ I.rename-failed g temp path q e
            ∙ same q a;
      })
    ]

    discard-Written :
        (g : F)
        → ((q : String) → temp ≢ q → D.read g q ≡ D.read f q)
        → Written f path s (D.close (D.remove g temp) temp, false)
    discard-Written g same = record {
      target =
          I.close-read _ temp path
          ∙ I.remove-read g temp path (temp_of-other path)
          ∙ same path (temp_of-other path);
      others = λ q a b. I.close-read _ temp q ∙ I.remove-read g temp q a ∙ same q a;
    }

    fill-Written :
        (g : F)
        → (D.create g temp).1 ≡ true
        → ((q : String) → temp ≢ q → D.read (D.create g temp).0 q ≡ D.read f q)
        → Written f path s (fill D (D.create g temp).0 temp path s)
    unfolding fill
    fill-Written g made same =
        let h : F = (D.create g temp).0 in
        let after : (q : String) → temp ≢ q → D.read (D.encode h temp s).0 q ≡ D.read f q =
          λ q a. I.encode-read h temp q s a ∙ same q a in
        elim (Bool-cases (D.encode h temp s).1) [
          | inr e ↦ rw e (discard-Written _ after)
          | inl e ↦ rw e (elim (Bool-cases (D.sync (D.encode h temp s).0 temp).1) [
            | inr n ↦ rw n (discard-Written _ λ q a. I.sync-read _ temp q a ∙ after q a)
            | inl y ↦ rw y (
                publish-Written (D.close (D.sync (D.encode h temp s).0 temp).0 temp)
                  (I.close-read _ temp temp ∙ I.sync-same _ temp y ∙ I.encode-same g temp s made e)
                  λ q a. I.close-read _ temp q ∙ I.sync-read _ temp q a ∙ after q a)
          ])
        ]

    -- On a disk that does what IsDisk says, whatever call fails, the snapshot file is the new snapshot,
    -- if the write reports success, or just as before; and no file but it and its temporary file
    -- changes.
    pub write_snapshot_to_disk-Written : Written f path s (write_snapshot_to_disk D f path s)
    unfolding write_snapshot_to_disk
    write_snapshot_to_disk-Written =
        let made : F × Bool = D.mkdir_all f (D.dir path) in
        elim (Bool-cases made.1) [
          | inr e ↦ rw e (record {
            target = I.mkdir_all-read f (D.dir path) path;
            others = λ q a b. I.mkdir_all-read f (D.dir path) q;
          })
          | inl e ↦ rw e (elim (Bool-cases (D.create made.0 temp).1) [
            | inr n ↦ rw n (record {
              target =
                  I.create-read made.0 temp path (temp_of-other path)
                  ∙ I.mkdir_all-read f (D.dir path) path;
              others = λ q a b. I.create-read made.0 temp q a ∙ I.mkdir_all-read f (D.dir path) q;
            })
            | inl y ↦ rw y (
                fill-Written made.0 y
                  λ q a. I.create-read made.0 temp q a ∙ I.mkdir_all-read f (D.dir path) q)
          ])
        ]

  -- The retries of persistSnapshot, however many: the file holds the snapshot if one succeeded, and
  -- what it held if none did.
  pub attempts-Written :
      (left attempt : ℕ) (f : F) (path : String) (s : S)
      → Written f path s
          ((attempts D left attempt f path s).0, (attempts D left attempt f path s).1)
  unfolding attempts
  attempts-Written zero attempt f path s = record { target = refl; others = λ q a b. refl }
  attempts-Written (suc left) attempt f path s =
      let w = write_snapshot_to_disk-Written f path s in
      let g : F = (write_snapshot_to_disk D f path s).0 in
      let r = attempts-Written left (attempt + 1) g path s in
      elim (Bool-cases (write_snapshot_to_disk D f path s).1) [
        | inl e ↦ rw e (record { target = ground (arith, w.target); others = w.others })
        | inr e ↦ rw e (record {
          target = ground (arith, w.target, r.target);
          others = λ q a b. r.others q a b ∙ w.others q a b;
        })
      ]
