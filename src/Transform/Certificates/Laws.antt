-- ===== src/Transform/Certificates/Laws.antt =====
-- What the pods hold after the certificates have been added.
use serverless_operator.Common.{
  ◌+◌, ◌-◌, ◌≤◌, String, ◌≡◌, refl, ◌∙◌, sym, ap, subst, Bool, ◌==◌, Option, none, some, List, [],
  ◌∷◌, ◌++◌, if◌then◌else◌, eq_iff, arith, Bool-cases, inl, inr, count, count-append, split,
  split-cons, join, true,
}
use serverless_operator.Transform.Spec.{EnvVar, Volume, Container, VolumeMount}
use serverless_operator.Transform.Environment.Laws.{env_value}
use serverless_operator.Transform.Certificates.{
  trusted_ca_config_map_volume, trusted_volume, remove_volume, remove_mount,
  add_ca_bundle_config_maps_to_volumes, ssl_cert_dir, find_cert_dir, default_cert_dir, default_env,
  add_from, add_ca_bundles_to_container_volumes, trusted_mount, first_dir,
}

abbrev pub is_trusted : Volume → Bool
is_trusted v = v.name == trusted_ca_config_map_volume

count-remove_volume :
    (vs : List Volume)
    → count is_trusted (remove_volume trusted_ca_config_map_volume vs) ≡ count is_trusted vs - 1
unfolding count remove_volume
count-remove_volume [] = refl
count-remove_volume (v ∷ vs) =
    let rest : count is_trusted (remove_volume trusted_ca_config_map_volume vs)
        ≡ count is_trusted vs - 1 =
      count-remove_volume vs in
    elim (Bool-cases (v.name == trusted_ca_config_map_volume)) [
      | inl e ↦ rw e (omega arith)
      | inr e ↦ rw e (rw e rest)
    ]

-- After the addition the volumes hold the one of the certificates as often as before, and once
-- where they did not hold it: a second one that was there is not removed.
pub count-add_ca_bundle_config_maps_to_volumes :
    (vs : List Volume)
    → count is_trusted (add_ca_bundle_config_maps_to_volumes vs) ≡ (count is_trusted vs - 1) + 1
unfolding add_ca_bundle_config_maps_to_volumes count
count-add_ca_bundle_config_maps_to_volumes vs = rw (count-append, count-remove_volume) refl

remove_volume-last :
    (vs : List Volume)
    → count is_trusted vs ≡ 0
    → remove_volume trusted_ca_config_map_volume (vs ++ (trusted_volume ∷ [])) ≡ vs
unfolding remove_volume count
remove_volume-last [] h = refl
remove_volume-last (v ∷ vs) h = elim (Bool-cases (v.name == trusted_ca_config_map_volume)) [
  | inl e ↦ let one_left = rw e at h in ground arith
  | inr e ↦ let rest = rw e at h in rw e (ap (λ l. v ∷ l) (remove_volume-last vs rest))
]

-- Where the volume is there at most once, a second addition changes nothing.
pub add_ca_bundle_config_maps_to_volumes_idem :
    (vs : List Volume)
    → count is_trusted vs ≤ 1
    → add_ca_bundle_config_maps_to_volumes (add_ca_bundle_config_maps_to_volumes vs)
      ≡ add_ca_bundle_config_maps_to_volumes vs
unfolding add_ca_bundle_config_maps_to_volumes
add_ca_bundle_config_maps_to_volumes_idem vs h =
    ap (λ l. l ++ (trusted_volume ∷ []))
      (remove_volume-last (remove_volume trusted_ca_config_map_volume vs)
        (count-remove_volume vs ∙ omega arith))

find_cert_dir_lem : (es : List EnvVar) → find_cert_dir es ≡ env_value ssl_cert_dir es
unfolding find_cert_dir env_value
find_cert_dir_lem [] = refl
find_cert_dir_lem (e ∷ es) = ground (arith, find_cert_dir_lem es)

abbrev pub or_else : Option String → Option String → Option String
or_else none b = b
or_else (some a) b = some a

env_value-append :
    (es fs : List EnvVar) (name : String)
    → env_value name (es ++ fs) ≡ or_else (env_value name es) (env_value name fs)
unfolding env_value
env_value-append [] fs name = refl
env_value-append (e ∷ es) fs name = ground (arith, env_value-append es fs name)

-- The directories of the certificates, from SSL_CERT_DIR.
abbrev pub dirs_of : Option String → String
dirs_of none = "/ocp-serverless-custom-certs:/etc/pki/tls/certs"
dirs_of (some dir) = dir

abbrev pub last_mount : List VolumeMount → Option VolumeMount
last_mount [] = none
last_mount (m ∷ []) = some m
last_mount (m ∷ n ∷ ms) = last_mount (n ∷ ms)

last_mount-append : (ms : List VolumeMount) (m : VolumeMount) → last_mount (ms ++ (m ∷ [])) ≡ some m
last_mount-append [] m = refl
last_mount-append (n ∷ []) m = refl
last_mount-append (n ∷ k ∷ ms) m = last_mount-append (k ∷ ms) m

module _ (filepath_join : String → String → String) where
  -- The certificates in a directory.
  abbrev pub mount_in : String → VolumeMount
  mount_in dir = record {
    name = "config-openshift-trusted-cabundle-volume";
    mount_path = filepath_join dir "ca-bundle.crt";
    sub_path = "ca-bundle.crt";
    read_only = true;
  }

  trusted_mount_lem :
      (dirs : String)
      → (dir : String) × (others : List String) × (split b':' dirs ≡ dir ∷ others)
        × (trusted_mount filepath_join dirs ≡ mount_in dir)
  unfolding trusted_mount
  trusted_mount_lem dirs =
      let (dir, others, parts) = split-cons b':' dirs in
      (dir, others, parts, ap (λ ds. mount_in (first_dir ds)) parts)

module _ (filepath_join : String → String → String) (c : Container) (name : String) where
  -- What a container looks like that has got the certificates in the first of some directories.
  abbrev pub IsMounted : String → Container → Type 0
  IsMounted dirs c' =
      (env_value name c'.env ≡ (if "SSL_CERT_DIR" == name then some dirs else env_value name c.env))
      × ((dir : String) × (others : List String) × (split b':' dirs ≡ dir ∷ others)
          × (last_mount c'.volume_mounts ≡ some (mount_in filepath_join dir)))

  mounted-first :
      (dirs : String) (ms : List VolumeMount)
      → (dir : String) × (others : List String) × (split b':' dirs ≡ dir ∷ others)
        × (last_mount (ms ++ (trusted_mount filepath_join dirs ∷ []))
            ≡ some (mount_in filepath_join dir))
  mounted-first dirs ms =
      let (dir, others, parts, same) = trusted_mount_lem filepath_join dirs in
      (
        dir,
        others,
        parts,
        last_mount-append ms (trusted_mount filepath_join dirs) ∙ ap (λ m. some m) same,
      )

  add_from-IsMounted :
      (o : Option String)
      → env_value ssl_cert_dir c.env ≡ o
      → IsMounted (dirs_of o) (add_from filepath_join o c)
  unfolding add_from env_value default_cert_dir default_env join
  add_from-IsMounted (some dir) e = (
    ground (arith, eq_iff ssl_cert_dir name),
    mounted-first dir (remove_mount trusted_ca_config_map_volume c.volume_mounts),
  )
  add_from-IsMounted none e = (
    env_value-append c.env (default_env filepath_join ∷ []) name
        ∙ ground (arith, eq_iff ssl_cert_dir name),
    mounted-first (dirs_of none) (remove_mount trusted_ca_config_map_volume c.volume_mounts),
  )

  -- A container keeps the directories that its SSL_CERT_DIR names and gets the default ones,
  -- "/ocp-serverless-custom-certs:/etc/pki/tls/certs", where it has none; no other variable changes, and
  -- the last mount is that of the certificates, read-only, in the first of these directories.
  pub add_ca_bundles_to_container_volumes-IsMounted :
      IsMounted
        (dirs_of (env_value "SSL_CERT_DIR" c.env))
        (add_ca_bundles_to_container_volumes filepath_join c)
  unfolding add_ca_bundles_to_container_volumes
  add_ca_bundles_to_container_volumes-IsMounted =
      subst (λ o. IsMounted (dirs_of (env_value ssl_cert_dir c.env)) (add_from filepath_join o c))
        (sym (find_cert_dir_lem c.env)) (add_from-IsMounted (env_value ssl_cert_dir c.env) refl)
