-- ===== src/Endpoint/Config.antt =====
-- InitConfig of internal/config/config.go. The files, the TOML library, time.ParseDuration and the
-- random source are parameters.
use easytun.Base.{
  ℕ, ◌*◌, ◌^◌, ◌≡◌, ◌≤◌, refl, ap, sym, ◌∙◌, inl, inr, Bool, true, false, ◌||◌, List, Option, none,
  some, length, ltb, eqb, arith, if◌then◌else◌, Bool-cases,
}

-- A time.Duration in nanoseconds.
pub record Duration : Type 0 where
  pub negative : Bool
  pub ns : ℕ

abbrev pub seconds : ℕ → Duration
seconds n = record { negative = false; ns = n * 10 ^ 9 }

-- The fields of the file. A number of workers below 1 is 0.
pub record Configuration : Type 0 where
  pub server_ip : List ℕ
  pub server_port : ℕ
  pub check_port : ℕ
  pub retention_time : List ℕ
  pub device_name : List ℕ
  pub read_timeout : List ℕ
  pub ping_time : List ℕ
  pub send_workers : ℕ
  pub recv_workers : ℕ
  pub enable_p2p : Bool
  pub enable_ui : Bool
  pub enable_compress : Bool

-- The variables of the package.
pub record Config : Type 0 where
  pub server_ip : List ℕ
  pub server_port : ℕ
  pub check_port : ℕ
  pub device_name : List ℕ
  pub client_id : List ℕ
  pub read_timeout : Duration
  pub retention_time : Duration
  pub ping_time : Duration
  pub send_workers : ℕ
  pub recv_workers : ℕ
  pub enable_p2p : Bool
  pub enable_ui : Bool
  pub enable_compress : Bool

pub record ConfigLibrary : Type 0 where
  pub unmarshal : List ℕ → Option Configuration
  pub parse_duration : List ℕ → Option Duration

-- `chosen` is the file at the path of the command line, if there is one, `local_file` is config.toml, if
-- it exists; each may fail to be read. `embedded` is in the program.
pub record Sources : Type 0 where
  pub chosen : Option (Option (List ℕ))
  pub local_file : Option (Option (List ℕ))
  pub embedded : List ℕ

unfoldable pub read_source : Sources → Option (List ℕ)
read_source s = elim s.chosen [
  | some content ↦ content
  | none ↦ elim s.local_file [ some content ↦ content | none ↦ some s.embedded ]
]

abbrev pub or_default : Option Duration → Duration → Duration
or_default none d = d
or_default (some x) d = x

unfoldable pub at_least_one : ℕ → ℕ
at_least_one n = if ltb n 1 then 1 else n

-- How os.WriteFile ends: the file holds what was written, or there is an error, which no code looks at, and
-- the file can be read as this or not at all.
pub data Write : Type 0 where
  stored : Write
  lost : Option (List ℕ) → Write

unfoldable pub after_write : List ℕ → Write → Option (List ℕ)
after_write id stored = some id
after_write id (lost left) = left

-- The ID and the file `.client_id` after it; `none` is the panic of the random source.
unfoldable pub new_client_id : Option (List ℕ) → Write → Option (List ℕ × Option (List ℕ))
unfolding after_write
new_client_id none w = none
new_client_id (some id) w = some (id, after_write id w)

unfoldable pub client_id_from :
    Option (List ℕ) → Option (List ℕ) → Write → Option (List ℕ × Option (List ℕ))
unfolding new_client_id
client_id_from none random w = new_client_id random w
client_id_from (some content) random w =
    if eqb (length content) 16 then some (content, some content) else new_client_id random w

-- What the rest of the program takes for granted.
abbrev pub IsUsable : Config → Type 0
IsUsable c =
    (1 ≤ length c.device_name)
    × (length c.device_name ≤ 10)
    × (1 ≤ c.send_workers)
    × (1 ≤ c.recv_workers)
    × (length c.client_id ≡ 16)

module _ (lib : ConfigLibrary) where
  unfoldable pub config_of : Configuration → List ℕ → Config
  unfolding at_least_one
  config_of conf id = record {
    server_ip = conf.server_ip;
    server_port = conf.server_port;
    check_port = conf.check_port;
    device_name = conf.device_name;
    client_id = id;
    read_timeout = or_default (lib.parse_duration conf.read_timeout) (seconds 10);
    retention_time = or_default (lib.parse_duration conf.retention_time) (seconds 300);
    ping_time = or_default (lib.parse_duration conf.ping_time) (seconds 1);
    send_workers = at_least_one conf.send_workers;
    recv_workers = at_least_one conf.recv_workers;
    enable_p2p = conf.enable_p2p;
    enable_ui = conf.enable_ui;
    enable_compress = conf.enable_compress;
  }

  unfoldable pub with_id :
      Configuration → Option (List ℕ × Option (List ℕ)) → Option (Config × Option (List ℕ))
  unfolding config_of
  with_id conf none = none
  with_id conf (some (id, file)) = some (config_of conf id, file)

  unfoldable pub load :
      Option Configuration
      → Option (List ℕ)
      → Option (List ℕ)
      → Write
      → Option (Config × Option (List ℕ))
  unfolding with_id client_id_from
  load none id_file random w = none
  load (some conf) id_file random w =
      if ltb 10 (length conf.device_name) || ltb (length conf.device_name) 1
      then none
      else with_id conf (client_id_from id_file random w)

  abbrev pub parsed : Option (List ℕ) → Option Configuration
  parsed none = none
  parsed (some content) = lib.unmarshal content

  -- The configuration and the file `.client_id`; `none` is a panic. `random` are 16 bytes, or the error of
  -- the source, and `w` is how the file is written, where it is.
  unfoldable pub init_config :
      Sources → Option (List ℕ) → Option (List ℕ) → Write → Option (Config × Option (List ℕ))
  unfolding read_source load
  init_config s id_file random w = load (parsed (read_source s)) id_file random w

  at_least_one-le : (n : ℕ) → 1 ≤ at_least_one n
  unfolding at_least_one
  at_least_one-le n = ground arith

  -- An ID of 16 bytes that the file now holds.
  abbrev Sized : Option (List ℕ × Option (List ℕ)) → Type 0
  Sized none = Unit {0}
  Sized (some (id, file)) = (length id ≡ 16) × (file ≡ some id)

  new_client_id-Sized :
      (random : Option (List ℕ))
      → ((id : List ℕ) → random ≡ some id → length id ≡ 16)
      → Sized (new_client_id random stored)
  unfolding new_client_id
  new_client_id-Sized none sized = tt
  new_client_id-Sized (some id) sized = (sized id refl, refl)

  client_id_from-Sized :
      (file random : Option (List ℕ))
      → ((id : List ℕ) → random ≡ some id → length id ≡ 16)
      → Sized (client_id_from file random stored)
  unfolding client_id_from
  client_id_from-Sized none random sized = new_client_id-Sized random sized
  client_id_from-Sized (some content) random sized = elim (Bool-cases (eqb (length content) 16)) [
    | inl e ↦ rw e (ground arith, refl)
    | inr e ↦ rw e (new_client_id-Sized random sized)
  ]

  client_id_from-again :
      (id : List ℕ) (random : Option (List ℕ)) (w : Write)
      → length id ≡ 16
      → client_id_from (some id) random w ≡ some (id, some id)
  unfolding client_id_from
  client_id_from-again id random w n = let e : eqb (length id) 16 ≡ true = ground arith in rw e refl

  load-again :
      (conf : Configuration) (o : Option (List ℕ × Option (List ℕ))) (random' f' : Option (List ℕ))
      (w : Write) (c : Config)
      → Sized o
      → 1 ≤ length conf.device_name
      → length conf.device_name ≤ 10
      → with_id conf o ≡ some (c, f')
      → (with_id conf (client_id_from f' random' w) ≡ some (c, f')) × IsUsable c
  unfolding with_id config_of
  load-again conf none random' f' w c sized low high e = cc
  load-again conf (some (id, file)) random' f' w c (n, kept) low high e =
      let first : config_of conf id ≡ c =
        ap (λ (o : Option (Config × Option (List ℕ))). elim o [ none ↦ c | some x ↦ x.0 ]) e in
      let second : file ≡ f' =
        ap (λ (o : Option (Config × Option (List ℕ))). elim o [ none ↦ f' | some x ↦ x.1 ]) e in
      let held : f' ≡ some id = sym second ∙ kept in
      (
        ap (λ (g : Option (List ℕ)). with_id conf (client_id_from g random' w)) held
            ∙ ap (with_id conf) (client_id_from-again id random' w n)
            ∙ rw (first, held) refl,
        rw (← first)
            (low, high, at_least_one-le conf.send_workers, at_least_one-le conf.recv_workers, n),
      )

  load-twice :
      (o : Option Configuration) (f random random' f' : Option (List ℕ)) (w : Write) (c : Config)
      → ((id : List ℕ) → random ≡ some id → length id ≡ 16)
      → load o f random stored ≡ some (c, f')
      → (load o f' random' w ≡ some (c, f')) × IsUsable c
  unfolding load
  load-twice none f random random' f' w c sized e = cc
  load-twice (some conf) f random random' f' w c sized e =
      elim (Bool-cases (ltb 10 (length conf.device_name) || ltb (length conf.device_name) 1)) [
        | inl bad ↦ cc (rw bad at e)
        | inr good ↦ rw good (
            load-again conf (client_id_from f random stored) random' f' w c
              (client_id_from-Sized f random sized) (ground arith) (ground arith) (rw good at e))
      ]

  -- If InitConfig does not panic, with a random source that gives 16 bytes or an error, and the file
  -- `.client_id`, if it is written, is stored without an error, the device name has 1 to 10 bytes,
  -- there is at least one worker of each kind, and the client ID has 16 bytes; and a second start from
  -- the same configuration, with the file that the first has left, gives the same variables, the
  -- client ID included, and leaves the file as it is, whatever the random source and a write do then.
  pub init_config-twice :
      (s : Sources) (f random random' f' : Option (List ℕ)) (w : Write) (c : Config)
      → ((id : List ℕ) → random ≡ some id → length id ≡ 16)
      → init_config s f random stored ≡ some (c, f')
      → (init_config s f' random' w ≡ some (c, f')) × IsUsable c
  unfolding init_config
  init_config-twice s f random random' f' w c sized e =
      load-twice (parsed (read_source s)) f random random' f' w c sized e
