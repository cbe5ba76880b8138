-- ===== src/Dm/Ring.antt =====
-- loader/krn/dm.c: the modules, and the rings of registered and of mounted devices.
--
-- A ring is the list of its devices from its head on, in the order of the `next` pointers; a device that
-- is put before the head comes last. A name has no NUL.
use mathlib.Core.Path.{ap₂}
use nkos.Common.{
  take, subst, ◌⊎◌, ℕ, zero, suc, ◌≡◌, ◌∙◌, ap, refl, sym, Bool, true, false, ◌&&◌, Option, none,
  some, List, [], ◌∷◌, ◌++◌, ◌==◌, if◌then◌else◌, Bool-cases, inl, inr, arith,
}

-- struct dm_dev_t: its name, whether DM_FLAG_FS is set, and what its method get_uuid gives.
pub record DmDev : Type 0 where
  pub name : Option (List ℕ)
  pub is_fs : Bool
  pub uuid : Option (List ℕ)

-- struct dm_module_t, by its type, and whether it creates devices.
pub record DmModule : Type 0 where
  pub type : ℕ
  pub creates : Bool

-- dm_mods, dm_reg_dev and dm_mnt_dev
pub record Dm : Type 0 where
  pub mods : List DmModule
  pub reg : List DmDev
  pub mnt : List DmDev

-- `dm_register_module`
abbrev pub dm_register_module : Dm → DmModule → Dm
dm_register_module dm m = record dm { mods = m ∷ dm.mods }

-- `dm_find_module`, on dm_mods
unfoldable pub dm_find_module : List DmModule → ℕ → Option DmModule
dm_find_module [] type = none
dm_find_module (m ∷ mods) type =
    let rest = dm_find_module mods type in if m.type == type then some m else rest

-- `dm_register_device`
abbrev pub dm_register_device : Dm → DmDev → Dm
dm_register_device dm dev = record dm { reg = dm.reg ++ dev ∷ [] }

-- `dm_mount_device`: false for -1.
unfoldable pub dm_mount_device : Dm → DmDev → Bool × Dm
dm_mount_device dm dev =
    if dev.is_fs then (true, record dm { mnt = dm.mnt ++ dev ∷ [] }) else (false, dm)

-- `dm_mount_all`, on the devices from one on to the end of the ring.
unfoldable pub mount_from : Dm → List DmDev → Dm
unfolding dm_mount_device
mount_from dm [] = dm
mount_from dm (dev ∷ devs) = mount_from (dm_mount_device dm dev).1 devs

unfoldable pub dm_mount_all : Dm → Dm
unfolding mount_from
dm_mount_all dm = mount_from dm dm.reg

-- strncmp(a, b, n) == 0
unfoldable pub same_start : List ℕ → List ℕ → ℕ → Bool
same_start a b zero = true
same_start [] [] (suc n) = true
same_start (x ∷ a) (y ∷ b) (suc n) = let rest = same_start a b n in x == y && rest
same_start other b (suc n) = false

-- The test of `dm_find_mnt_by_name`.
abbrev pub is_named : List ℕ → ℕ → DmDev → Bool
is_named name size dev = named dev.name
  where
    named : Option (List ℕ) → Bool
    named none = false
    named (some own) = same_start own name size

-- The loop of `dm_find_mnt_by_name` over the mounted devices.
unfoldable pub find_by_name : List DmDev → List ℕ → ℕ → Option DmDev
find_by_name [] name size = none
find_by_name (dev ∷ devs) name size =
    let rest = find_by_name devs name size in if is_named name size dev then some dev else rest

-- `dm_find_mnt_by_name`
abbrev pub dm_find_mnt_by_name : Dm → List ℕ → ℕ → Option DmDev
dm_find_mnt_by_name dm name size = find_by_name dm.mnt name size

-- The devices with a file system, in order.
abbrev pub filesystems : List DmDev → List DmDev
filesystems [] = []
filesystems (dev ∷ devs) = if dev.is_fs then dev ∷ filesystems devs else filesystems devs

-- The device at the first place where P holds, if there is one.
abbrev pub IsFirstDev : (DmDev → Type 0) → List DmDev → Option DmDev → Type 0
IsFirstDev P [] r = r ≡ none
IsFirstDev P (dev ∷ devs) r = (P dev × (r ≡ some dev)) ⊎ (¬ P dev × IsFirstDev P devs r)

-- The same for a test.
abbrev pub IsFirstTest : (DmDev → Bool) → List DmDev → Option DmDev → Type 0
IsFirstTest p [] r = r ≡ none
IsFirstTest p (dev ∷ devs) r =
    ((p dev ≡ true) × (r ≡ some dev)) ⊎ ((p dev ≡ false) × IsFirstTest p devs r)

append_assoc : (a b c : List DmDev) → (a ++ b) ++ c ≡ a ++ (b ++ c)
append_assoc [] b c = refl
append_assoc (x ∷ a) b c = ap (λ d. x ∷ d) (append_assoc a b c)

append_empty : (a : List DmDev) → a ≡ a ++ []
append_empty [] = refl
append_empty (x ∷ a) = ap (λ d. x ∷ d) (append_empty a)

if-true : {A : Type 0} (b : Bool) (x y : A) → b ≡ true → (if b then x else y) ≡ x
if-true b x y h = rw h refl

if-false : {A : Type 0} (b : Bool) (x y : A) → b ≡ false → (if b then x else y) ≡ y
if-false b x y h = rw h refl

mount_from-mnt :
    (devs : List DmDev) (dm : Dm) → (mount_from dm devs).mnt ≡ dm.mnt ++ filesystems devs
unfolding mount_from dm_mount_device
mount_from-mnt [] dm = append_empty dm.mnt
mount_from-mnt (dev ∷ devs) dm =
    let rest = filesystems devs in
    let more : Dm = record dm { mnt = dm.mnt ++ dev ∷ [] } in
    let mounted : Bool × Dm = (true, more) in
    let not_mounted : Bool × Dm = (false, dm) in
    elim (Bool-cases dev.is_fs) [
      | inl fs ↦
          ap (λ r. (mount_from r.1 devs).mnt) (if-true dev.is_fs mounted not_mounted fs)
          ∙ mount_from-mnt devs more
          ∙ append_assoc dm.mnt (dev ∷ []) rest
          ∙ ap (λ l. dm.mnt ++ l) (sym (if-true dev.is_fs (dev ∷ rest) rest fs))
      | inr other ↦
          ap (λ r. (mount_from r.1 devs).mnt) (if-false dev.is_fs mounted not_mounted other)
          ∙ mount_from-mnt devs dm
          ∙ ap (λ l. dm.mnt ++ l) (sym (if-false dev.is_fs (dev ∷ rest) rest other))
    ]

find_by_name-IsFirstTest :
    (devs : List DmDev) (name : List ℕ) (size : ℕ)
    → IsFirstTest
        (λ d. d.is_fs && is_named name size d)
        devs
        (find_by_name (filesystems devs) name size)
unfolding find_by_name
find_by_name-IsFirstTest [] name size = refl
find_by_name-IsFirstTest (dev ∷ devs) name size =
    let rest = filesystems devs in
    let later = find_by_name rest name size in
    let goes_on = find_by_name-IsFirstTest devs name size in
    elim (Bool-cases dev.is_fs) [
      | inl fs ↦
          let here = ap (λ l. find_by_name l name size) (if-true dev.is_fs (dev ∷ rest) rest fs) in
          elim (Bool-cases (is_named name size dev)) [
            | inl named ↦ inl (
              both dev.is_fs (is_named name size dev) fs named,
              here ∙ if-true (is_named name size dev) (some dev) later named,
            )
            | inr other ↦ inr (
              second dev.is_fs (is_named name size dev) other,
              subst (IsFirstTest (λ d. d.is_fs && is_named name size d) devs)
                  (sym (here ∙ if-false (is_named name size dev) (some dev) later other)) goes_on,
            )
          ]
      | inr other ↦
          let skipped =
            ap (λ l. find_by_name l name size) (if-false dev.is_fs (dev ∷ rest) rest other) in
          inr (
            first_no dev.is_fs (is_named name size dev) other,
            subst (IsFirstTest (λ d. d.is_fs && is_named name size d) devs) (sym skipped) goes_on,
          )
    ]
  where
    both : (a b : Bool) → a ≡ true → b ≡ true → (a && b) ≡ true
    both a b h k = ground arith

    second : (a b : Bool) → b ≡ false → (a && b) ≡ false
    second a b h = ground arith

    first_no : (a b : Bool) → a ≡ false → (a && b) ≡ false
    first_no a b h = ground arith

pub IsFirstTest-IsFirstDev :
    (test : DmDev → Bool) (P : DmDev → Type 0)
    → ((d : DmDev) → test d ≡ true → P d)
    → ((d : DmDev) → test d ≡ false → ¬ P d)
    → (devs : List DmDev) (r : Option DmDev) → IsFirstTest test devs r
    → IsFirstDev P devs r
IsFirstTest-IsFirstDev test P if_true if_false [] r h = h
IsFirstTest-IsFirstDev test P if_true if_false (d ∷ devs) r (inl (t, e)) = inl (if_true d t, e)
IsFirstTest-IsFirstDev test P if_true if_false (d ∷ devs) r (inr (t, h)) =
    inr (if_false d t, IsFirstTest-IsFirstDev test P if_true if_false devs r h)

-- The device has a file system and a name, and the name agrees with the one given in its first size bytes.
abbrev pub IsNamedFs : List ℕ → ℕ → DmDev → Type 0
IsNamedFs name size d =
    (d.is_fs ≡ true) × ((own : List ℕ) × (d.name ≡ some own) × (take size own ≡ take size name))

same_start-take : (a b : List ℕ) (n : ℕ) → same_start a b n ≡ true → take n a ≡ take n b
unfolding same_start
same_start-take a b zero h = refl
same_start-take [] [] (suc n) h = refl
same_start-take [] (y ∷ b) (suc n) h = cc
same_start-take (x ∷ a) [] (suc n) h = cc
same_start-take (x ∷ a) (y ∷ b) (suc n) h =
    let first : x ≡ y = ground arith in
    let rest : same_start a b n ≡ true = ground arith in
    ap₂ (λ z l. z ∷ l) first (same_start-take a b n rest)

take-same_start : (a b : List ℕ) (n : ℕ) → take n a ≡ take n b → same_start a b n ≡ true
unfolding same_start
take-same_start a b zero h = refl
take-same_start [] [] (suc n) h = refl
take-same_start [] (y ∷ b) (suc n) h = cc
take-same_start (x ∷ a) [] (suc n) h = cc
take-same_start (x ∷ a) (y ∷ b) (suc n) h =
    let first : x ≡ y = cc in
    let rest : take n a ≡ take n b = cc in let same = take-same_start a b n rest in ground arith

is_named-IsNamedFs :
    (name : List ℕ) (size : ℕ) (fs : Bool) (own : Option (List ℕ)) (uuid : Option (List ℕ))
    → ((fs && is_named name size (record { name = own; is_fs = fs; uuid = uuid })) ≡ true
        → IsNamedFs name size (record { name = own; is_fs = fs; uuid = uuid }))
      × ((fs && is_named name size (record { name = own; is_fs = fs; uuid = uuid })) ≡ false
          → ¬ IsNamedFs name size (record { name = own; is_fs = fs; uuid = uuid }))
is_named-IsNamedFs name size false own uuid = (λ h. cc, λ h is. let no = is.0 in cc)
is_named-IsNamedFs name size true none uuid =
    (λ h. cc, λ h is. let (own2, same, agree) = is.1 in cc)
is_named-IsNamedFs name size true (some own) uuid = (
  λ h. (refl, (own, refl, same_start-take own name size h)),
  λ h is.
      let (own2, same, agree) = is.1 in
      let own_same : own ≡ own2 = cc in
      let start = take-same_start own name size (ap (take size) own_same ∙ agree) in cc,
)

-- `dm_find_mnt_by_name` after `dm_mount_all`, where no device is mounted before: it finds the first registered device
-- that has a file system and a name that agrees with the one asked for in its first size bytes; without such a
-- device it finds none.
pub dm_mount_all-IsFirstDev :
    (dm : Dm) (name : List ℕ) (size : ℕ)
    → dm.mnt ≡ []
    → IsFirstDev (IsNamedFs name size) dm.reg (dm_find_mnt_by_name (dm_mount_all dm) name size)
unfolding dm_mount_all
dm_mount_all-IsFirstDev dm name size h =
    let mounted : (dm_mount_all dm).mnt ≡ filesystems dm.reg =
      mount_from-mnt dm.reg dm ∙ ap (λ m. m ++ filesystems dm.reg) h in
    subst (λ m. IsFirstDev (IsNamedFs name size) dm.reg (find_by_name m name size)) (sym mounted)
      (IsFirstTest-IsFirstDev (λ d. d.is_fs && is_named name size d) (IsNamedFs name size)
        (λ d. (is_named-IsNamedFs name size d.is_fs d.name d.uuid).0)
        (λ d. (is_named-IsNamedFs name size d.is_fs d.name d.uuid).1) dm.reg
        (find_by_name (filesystems dm.reg) name size) (find_by_name-IsFirstTest dm.reg name size))
