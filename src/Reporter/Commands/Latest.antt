-- ===== src/Reporter/Commands/Latest.antt =====
-- The time of the latest command.
use skywalking_go.Base.{
  ◌≡◌, ◌⊎◌, refl, sym, subst, ◌∙◌, false, [], ◌∷◌, ◌++◌, List, ℤ, lt_int, lt_int_irrefl,
  lt_int_asym, not_lt_trans, Bytes, codes, str_eq, str_eq_iff, if◌then◌else◌, arith, All,
  All-append, All-imp, Any, Bool-cases, inl, inr,
}
use skywalking_go.Profile.Tasks.{
  Task, Manager, add_profile_task, read_arg, read_args, parse_number, zero_task,
}
use skywalking_go.Reporter.Commands.{Command, Fetch, handle_profile_task, handle_commands}

abbrev create_time_of : Bytes × Bytes → List ℤ
create_time_of (key, text) = if str_eq key (codes "CreateTime") then parse_number text ∷ [] else []

abbrev arg_times : List (Bytes × Bytes) → List ℤ
arg_times [] = []
arg_times (a ∷ args) = create_time_of a ++ arg_times args

-- The times of creation in the commands for tasks.
abbrev pub create_times : List Command → List ℤ
create_times [] = []
create_times (cmd ∷ cmds) =
    (if str_eq cmd.command (codes "ProfileTaskQuery") then arg_times cmd.args else [])
    ++ create_times cmds

-- `u` is the latest of `t` and the times.
pub record IsLatest (t : ℤ) (times : List ℤ) (u : ℤ) : Type 0 where
  pub not_before : lt_int u t ≡ false
  pub latest : All (λ v. lt_int u v ≡ false) times
  pub one_of : (u ≡ t) ⊎ Any (λ v. v ≡ u) times

Any-append_left : (P : ℤ → Type 0) (xs ys : List ℤ) → Any P xs → Any P (xs ++ ys)
Any-append_left P [] ys h = elim h [ ]
Any-append_left P (x ∷ xs) ys (inl h) = inl h
Any-append_left P (x ∷ xs) ys (inr h) = inr (Any-append_left P xs ys h)

Any-append_right : (P : ℤ → Type 0) (xs ys : List ℤ) → Any P ys → Any P (xs ++ ys)
Any-append_right P [] ys h = h
Any-append_right P (x ∷ xs) ys h = inr (Any-append_right P xs ys h)

IsLatest-append :
    (t u v : ℤ) (xs ys : List ℤ) → IsLatest t xs u → IsLatest u ys v → IsLatest t (xs ++ ys) v
IsLatest-append t u v xs ys h k = record {
  not_before = not_lt_trans t u v h.not_before k.not_before;
  latest =
      All-append (λ w. lt_int v w ≡ false) xs ys
        (All-imp (λ w b. not_lt_trans w u v b k.not_before) xs h.latest) k.latest;
  one_of = elim k.one_of [
    | inr a ↦ inr (Any-append_right (λ w. w ≡ v) xs ys a)
    | inl e ↦ elim h.one_of [
      | inl f ↦ inl (e ∙ f)
      | inr a ↦
          inr (
            subst (λ z. Any (λ w. w ≡ z) (xs ++ ys)) (sym e) (Any-append_left (λ w. w ≡ u) xs ys a))
    ]
  ];
}

IsLatest-none : (t : ℤ) → IsLatest t [] t
IsLatest-none t = record { not_before = lt_int_irrefl t; latest = tt; one_of = inl refl }

IsLatest-one : (t u : ℤ) → IsLatest t (u ∷ []) (if lt_int t u then u else t)
IsLatest-one t u = elim (Bool-cases (lt_int t u)) [
  | inl e ↦ rw e (record {
    not_before = lt_int_asym t u e;
    latest = (lt_int_irrefl u, tt);
    one_of = inr (inl refl);
  })
  | inr e ↦ rw e (record { not_before = lt_int_irrefl t; latest = (e, tt); one_of = inl refl })
]

read_arg-IsLatest :
    (key text : Bytes) (task : Task) (t : ℤ)
    → IsLatest t (create_time_of (key, text)) (read_arg key text (task, t)).1
unfolding read_arg
read_arg-IsLatest key text task t = elim (Bool-cases (str_eq key (codes "CreateTime"))) [
  | inl e ↦
      let k = str_eq_iff key (codes "CreateTime") in
      subst (λ key. IsLatest t (create_time_of (key, text)) (read_arg key text (task, t)).1)
        (sym (k.0 e)) (IsLatest-one t (parse_number text))
  | inr e ↦
      let same : (read_arg key text (task, t)).1 ≡ t = ground (arith, e) in
      let times : create_time_of (key, text) ≡ [] = ground (arith, e) in
      subst (λ x. IsLatest t x (read_arg key text (task, t)).1) (sym times)
        (subst (IsLatest t []) (sym same) (IsLatest-none t))
]

read_args-IsLatest :
    (args : List (Bytes × Bytes)) (task : Task) (t : ℤ)
    → IsLatest t (arg_times args) (read_args args (task, t)).1
unfolding read_args
read_args-IsLatest [] task t = IsLatest-none t
read_args-IsLatest ((key, text) ∷ args) task t =
    let (task', t') = read_arg key text (task, t) in
    IsLatest-append t t' _ (create_time_of (key, text)) (arg_times args)
      (read_arg-IsLatest key text task t) (read_args-IsLatest args task' t')

handle-IsLatest :
    (cmd : Command) (t : ℤ) (m : Manager)
    → IsLatest t
        (if str_eq cmd.command (codes "ProfileTaskQuery") then arg_times cmd.args else [])
        (handle_profile_task cmd t m).1
unfolding handle_profile_task add_profile_task
handle-IsLatest cmd t m = elim (Bool-cases (str_eq cmd.command (codes "ProfileTaskQuery"))) [
  | inl e ↦ rw e (read_args-IsLatest cmd.args zero_task t)
  | inr e ↦ rw e (IsLatest-none t)
]

kept_time :
    (t nt : ℤ) (times : List ℤ)
    → IsLatest t times nt
    → IsLatest t times (if lt_int t nt then nt else t)
kept_time t nt times h = elim (Bool-cases (lt_int t nt)) [
  | inl e ↦ rw e h
  | inr e ↦ rw e (record {
    not_before = lt_int_irrefl t;
    latest = All-imp (λ v b. not_lt_trans v nt t b e) times h.latest;
    one_of = inl refl;
  })
]

-- Over the commands of a response, whatever their order: the time that the next query sends is the
-- latest of the time so far and of all times of creation in commands for tasks. It never goes back.
pub handle_commands-IsLatest :
    (cmds : List Command) (f : Fetch)
    → IsLatest f.last_profile_command_time
        (create_times cmds)
        (handle_commands cmds f).last_profile_command_time
unfolding handle_commands
handle_commands-IsLatest [] f = IsLatest-none f.last_profile_command_time
handle_commands-IsLatest (cmd ∷ cmds) f =
    let t = f.last_profile_command_time in
    let (m, nt) = handle_profile_task cmd t f.profile_task_manager in
    let f' : Fetch = record {
      last_profile_command_time = if lt_int t nt then nt else t;
      profile_task_manager = m;
    } in
    IsLatest-append t (f'.last_profile_command_time) _ _ (create_times cmds)
      (kept_time t nt _ (handle-IsLatest cmd t f.profile_task_manager))
      (handle_commands-IsLatest cmds f')
