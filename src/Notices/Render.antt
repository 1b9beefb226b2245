-- ===== src/Notices/Render.antt =====
-- What a webhook sends (api/src/common/webhooks.service.ts, `render` and its texts).
use text.Mathlib.Text.{◌==◌ as str_eq}
use digitalreception.Base.{
  ℕ, ◌≡◌, refl, String, Bool, true, false, List, [], ◌∷◌, ◌++◌, Option, none, some, if◌then◌else◌,
}
use digitalreception.Text.{Text, codes, same_text}
use digitalreception.Text.Decimal as decimal
use digitalreception.Invitations.Writes.{or_null}
use digitalreception.Notices.Store.{
  WebhookKind, teams, slack, generic, WebhookEvent, visit_arrived, access_denied,
  evacuation_started, test, EventData, Payload, Webhook,
}

pub data Lang : Type 0 where
  italian spanish english : Lang

abbrev pub lang_of : String → Lang
lang_of locale =
    if str_eq locale "it" then italian else if str_eq locale "es" then spanish else english

-- `${x}` of a field that may be absent.
abbrev shown : Option Text → Text
shown none = codes "undefined"
shown (some s) = s

abbrev shown_count : Option ℕ → Text
shown_count none = codes "undefined"
shown_count (some n) = decimal.show n

-- ` (company)`, unless there is none.
abbrev in_brackets : Option Text → Text
in_brackets company = elim (or_null company) [ none ↦ [] | some c ↦ codes " (" ++ (c ++ codes ")") ]

abbrev after_comma : Option Text → Text
after_comma employee = elim (or_null employee) [ none ↦ [] | some e ↦ codes ", " ++ e ]

-- `REASONS`
abbrev pub reasons : Lang → List (String × String)
reasons italian =
    ("UNKNOWN_CREDENTIAL", "badge non riconosciuto")
    ∷ ("QR_INVALID", "QR non valido")
    ∷ ("QR_EXPIRED", "QR scaduto")
    ∷ ("EMPLOYEE_INACTIVE", "dipendente non attivo")
    ∷ ("NOT_YET_VALID", "non ancora valido")
    ∷ ("EXPIRED", "validità scaduta")
    ∷ ("DOOR_INACTIVE", "porta disattivata")
    ∷ ("NO_PERMISSION", "nessun permesso")
    ∷ ("OUTSIDE_SCHEDULE", "fuori orario")
    ∷ ("APP_DISABLED", "porte non attive per questa persona")
    ∷ []
reasons spanish =
    ("UNKNOWN_CREDENTIAL", "credencial no reconocida")
    ∷ ("QR_INVALID", "QR no válido")
    ∷ ("QR_EXPIRED", "QR caducado")
    ∷ ("EMPLOYEE_INACTIVE", "empleado inactivo")
    ∷ ("NOT_YET_VALID", "aún no válido")
    ∷ ("EXPIRED", "validez vencida")
    ∷ ("DOOR_INACTIVE", "puerta desactivada")
    ∷ ("NO_PERMISSION", "sin permiso")
    ∷ ("OUTSIDE_SCHEDULE", "fuera de horario")
    ∷ ("APP_DISABLED", "puertas no activas para esta persona")
    ∷ []
reasons english =
    ("UNKNOWN_CREDENTIAL", "badge not recognised")
    ∷ ("QR_INVALID", "invalid QR")
    ∷ ("QR_EXPIRED", "expired QR")
    ∷ ("EMPLOYEE_INACTIVE", "employee inactive")
    ∷ ("NOT_YET_VALID", "not valid yet")
    ∷ ("EXPIRED", "validity ended")
    ∷ ("DOOR_INACTIVE", "door turned off")
    ∷ ("NO_PERMISSION", "no permission")
    ∷ ("OUTSIDE_SCHEDULE", "outside allowed hours")
    ∷ ("APP_DISABLED", "doors not turned on for this person")
    ∷ []

abbrev look_up : Text → List (String × String) → Text
look_up key [] = key
look_up key (row ∷ rows) = if same_text key (codes row.0) then codes row.1 else look_up key rows

-- `REASONS[lang][reason] ?? reason`
unfoldable pub reason_text : Lang → Option Text → Text
reason_text lang reason = look_up (shown reason) (reasons lang)

-- `arrived`
unfoldable pub arrived : Lang → EventData → Bool → Text
arrived italian d true =
    codes "Ospite arrivato a "
    ++ codes d.site
    ++ codes ": "
    ++ shown d.visitor
    ++ in_brackets d.company
    ++ codes ", per "
    ++ shown d.host
    ++ codes "."
arrived italian d false =
    codes "Un ospite per " ++ shown d.host ++ codes " è arrivato a " ++ codes d.site ++ codes "."
arrived spanish d true =
    codes "Ha llegado una visita a "
    ++ codes d.site
    ++ codes ": "
    ++ shown d.visitor
    ++ in_brackets d.company
    ++ codes ", para "
    ++ shown d.host
    ++ codes "."
arrived spanish d false =
    codes "Ha llegado una visita para " ++ shown d.host ++ codes " a " ++ codes d.site ++ codes "."
arrived english d true =
    codes "Guest arrived at "
    ++ codes d.site
    ++ codes ": "
    ++ shown d.visitor
    ++ in_brackets d.company
    ++ codes ", here to see "
    ++ shown d.host
    ++ codes "."
arrived english d false =
    codes "A guest for " ++ shown d.host ++ codes " has arrived at " ++ codes d.site ++ codes "."

-- `denied`
unfoldable pub denied : Lang → EventData → Bool → Text
denied lang d names =
    let who = if names then after_comma d.employee else [] in
    let what = reason_text lang d.reason in
    elim lang [
      | italian ↦
          codes "Accesso negato alla porta "
          ++ shown d.door
          ++ codes " ("
          ++ codes d.site
          ++ codes "): "
          ++ what
          ++ who
          ++ codes "."
      | spanish ↦
          codes "Acceso denegado en la puerta "
          ++ shown d.door
          ++ codes " ("
          ++ codes d.site
          ++ codes "): "
          ++ what
          ++ who
          ++ codes "."
      | english ↦
          codes "Access denied at door "
          ++ shown d.door
          ++ codes " ("
          ++ codes d.site
          ++ codes "): "
          ++ what
          ++ who
          ++ codes "."
    ]

-- `evacuation`
unfoldable pub evacuation : Lang → EventData → Text
evacuation italian d =
    codes "🚨 Evacuazione avviata a "
    ++ codes d.site
    ++ codes ": "
    ++ shown_count d.guests
    ++ codes " ospiti e "
    ++ shown_count d.employees
    ++ codes " dipendenti passati oggi dalle porte. L'appello è in console, alla voce Evacuazione."
evacuation spanish d =
    codes "🚨 Evacuación iniciada en "
    ++ codes d.site
    ++ codes ": "
    ++ shown_count d.guests
    ++ codes " visitas y "
    ++ shown_count d.employees
    ++ codes
        " empleados que pasaron hoy por las puertas. El recuento está en la consola, en Evacuación."
evacuation english d =
    codes "🚨 Evacuation started at "
    ++ codes d.site
    ++ codes ": "
    ++ shown_count d.guests
    ++ codes " guests and "
    ++ shown_count d.employees
    ++ codes
        " employees who passed a door today. The roll call is in the console, under Evacuation."

abbrev pub test_text : Lang → Text
test_text italian =
    codes "Prova dal registro visitatori: se leggi questo messaggio il collegamento funziona."
test_text spanish =
    codes "Prueba desde el registro de visitas: si lee este mensaje, la conexión funciona."
test_text english = codes "Test from the visitor log: if you can read this, the connection works."

-- The text of an event.
unfoldable pub event_text : WebhookEvent → Lang → EventData → Bool → Text
event_text visit_arrived lang d names = arrived lang d names
event_text access_denied lang d names = denied lang d names
event_text evacuation_started lang d names = evacuation lang d
event_text test lang d names = test_text lang

-- `JSON.stringify` of the three messages, and the signature of a body with a secret.
pub record Json : Type 0 where
  pub slack_message : Text → Text
  pub teams_card : Text → Text
  pub generic_message : WebhookEvent → ℕ → Text → EventData → Text
  pub sign : Text → Text → Text

-- The body and, for the generic kind, the signature.
unfoldable pub message :
    Json → WebhookKind → WebhookEvent → ℕ → Text → EventData → Text → Text × Option Text
message json slack event at text d secret = (json.slack_message text, none)
message json teams event at text d secret = (json.teams_card text, none)
message json generic event at text d secret =
    let body = json.generic_message event at text d in (body, some (json.sign secret body))

-- The data that the generic kind sends.
abbrev pub sent_data : Bool → EventData → EventData
sent_data true d = d
sent_data false d = record d { visitor = none; company = none; employee = none }

unfoldable pub render : Json → Webhook → Payload → Text → Text × Option Text
render json hook p secret =
    message json hook.kind p.event p.at
      (event_text p.event (lang_of p.data_of.locale) p.data_of hook.include_names)
      (sent_data hook.include_names p.data_of) secret

-- The same event with other names in it.
abbrev pub with_names : Option Text → Option Text → Option Text → Payload → Payload
with_names visitor company employee p = record p {
  data_of = record (p.data_of) { visitor = visitor; company = company; employee = employee };
}

arrived-anonymous :
    (lang : Lang) (visitor company employee : Option Text) (d : EventData)
    → arrived lang (record d { visitor = visitor; company = company; employee = employee }) false
      ≡ arrived lang d false
unfolding arrived
arrived-anonymous italian visitor company employee d = refl
arrived-anonymous spanish visitor company employee d = refl
arrived-anonymous english visitor company employee d = refl

event_text-anonymous :
    (event : WebhookEvent) (lang : Lang) (visitor company employee : Option Text) (d : EventData)
    → event_text event lang
        (record d { visitor = visitor; company = company; employee = employee })
        false
      ≡ event_text event lang d false
unfolding event_text denied evacuation
event_text-anonymous visit_arrived lang v c e d = arrived-anonymous lang v c e d
event_text-anonymous access_denied lang v c e d = refl
event_text-anonymous evacuation_started italian v c e d = refl
event_text-anonymous evacuation_started spanish v c e d = refl
event_text-anonymous evacuation_started english v c e d = refl
event_text-anonymous test lang v c e d = refl

-- What a webhook that does not take names sends is the same whoever the visitor, their company and
-- the employee of the event are, whatever the kind of the webhook, the event and the language.
pub render-anonymous :
    (json : Json) (hook : Webhook) (p : Payload) (secret : Text)
    (visitor company employee : Option Text)
    → hook.include_names ≡ false
    → render json hook (with_names visitor company employee p) secret ≡ render json hook p secret
unfolding render
render-anonymous json hook p secret v c e quiet =
    rw (render, quiet, event_text-anonymous p.event (lang_of p.data_of.locale) v c e p.data_of) refl
