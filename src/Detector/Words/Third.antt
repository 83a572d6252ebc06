-- ===== src/Detector/Words/Third.antt =====
-- `BIP39Words` of internal/detector/bip39.go, lines 285 to 418.
use Prim.Native.String.{String}
use dnn_daemon.Common.{List, [], ◌∷◌}

unfoldable pub third_words : List String
third_words =
    "prosper" ∷ "protect" ∷ "proud" ∷ "provide" ∷ "public" ∷ "pudding" ∷ "pull" ∷ "pulp" ∷ "pulse"
    ∷ "pumpkin" ∷ "punch" ∷ "pupil" ∷ "puppy" ∷ "purchase" ∷ "purity" ∷ "purpose" ∷ "purse" ∷ "push"
    ∷ "put" ∷ "puzzle" ∷ "pyramid" ∷ "quality" ∷ "quantum" ∷ "quarter" ∷ "question" ∷ "quick"
    ∷ "quit" ∷ "quiz" ∷ "quote" ∷ "rabbit" ∷ "raccoon" ∷ "race" ∷ "rack" ∷ "radar" ∷ "radio"
    ∷ "rail" ∷ "rain" ∷ "raise" ∷ "rally" ∷ "ramp" ∷ "ranch" ∷ "random" ∷ "range" ∷ "rapid" ∷ "rare"
    ∷ "rate" ∷ "rather" ∷ "raven" ∷ "raw" ∷ "razor" ∷ "ready" ∷ "real" ∷ "reason" ∷ "rebel"
    ∷ "rebuild" ∷ "recall" ∷ "receive" ∷ "recipe" ∷ "record" ∷ "recycle" ∷ "reduce" ∷ "reflect"
    ∷ "reform" ∷ "refuse" ∷ "region" ∷ "regret" ∷ "regular" ∷ "reject" ∷ "relax" ∷ "release"
    ∷ "relief" ∷ "rely" ∷ "remain" ∷ "remember" ∷ "remind" ∷ "remove" ∷ "render" ∷ "renew" ∷ "rent"
    ∷ "reopen" ∷ "repair" ∷ "repeat" ∷ "replace" ∷ "report" ∷ "require" ∷ "rescue" ∷ "resemble"
    ∷ "resist" ∷ "resource" ∷ "response" ∷ "result" ∷ "retire" ∷ "retreat" ∷ "return" ∷ "reunion"
    ∷ "reveal" ∷ "review" ∷ "reward" ∷ "rhythm" ∷ "ribbon" ∷ "rice" ∷ "rich" ∷ "ride" ∷ "ridge"
    ∷ "rifle" ∷ "right" ∷ "rigid" ∷ "ring" ∷ "riot" ∷ "ripple" ∷ "risk" ∷ "ritual" ∷ "rival"
    ∷ "river" ∷ "road" ∷ "roast" ∷ "robot" ∷ "robust" ∷ "rocket" ∷ "romance" ∷ "roof" ∷ "rookie"
    ∷ "room" ∷ "rose" ∷ "rotate" ∷ "rough" ∷ "round" ∷ "route" ∷ "royal" ∷ "rubber" ∷ "rude" ∷ "rug"
    ∷ "rule" ∷ "runway" ∷ "rural" ∷ "saddle" ∷ "sadness" ∷ "safe" ∷ "sail" ∷ "salad" ∷ "salmon"
    ∷ "salon" ∷ "salt" ∷ "salute" ∷ "same" ∷ "sample" ∷ "sand" ∷ "satisfy" ∷ "satoshi" ∷ "sauce"
    ∷ "sausage" ∷ "save" ∷ "say" ∷ "scale" ∷ "scan" ∷ "scare" ∷ "scatter" ∷ "scene" ∷ "scheme"
    ∷ "school" ∷ "science" ∷ "scissors" ∷ "scorpion" ∷ "scout" ∷ "scrap" ∷ "screen" ∷ "script"
    ∷ "scrub" ∷ "search" ∷ "season" ∷ "seat" ∷ "second" ∷ "secret" ∷ "section" ∷ "security" ∷ "seed"
    ∷ "seek" ∷ "segment" ∷ "select" ∷ "sell" ∷ "seminar" ∷ "senior" ∷ "sense" ∷ "sentence"
    ∷ "series" ∷ "service" ∷ "session" ∷ "settle" ∷ "setup" ∷ "seven" ∷ "shadow" ∷ "shaft"
    ∷ "shallow" ∷ "share" ∷ "shed" ∷ "shell" ∷ "sheriff" ∷ "shield" ∷ "shift" ∷ "shine" ∷ "ship"
    ∷ "shiver" ∷ "shock" ∷ "shoe" ∷ "shoot" ∷ "shop" ∷ "short" ∷ "shoulder" ∷ "shove" ∷ "shrimp"
    ∷ "shrug" ∷ "shuffle" ∷ "shy" ∷ "sibling" ∷ "sick" ∷ "side" ∷ "siege" ∷ "sight" ∷ "sign"
    ∷ "silent" ∷ "silk" ∷ "silly" ∷ "silver" ∷ "similar" ∷ "simple" ∷ "since" ∷ "sing" ∷ "siren"
    ∷ "sister" ∷ "situate" ∷ "six" ∷ "size" ∷ "skate" ∷ "sketch" ∷ "skill" ∷ "skin" ∷ "skirt"
    ∷ "skull" ∷ "slab" ∷ "slam" ∷ "sleep" ∷ "slender" ∷ "slice" ∷ "slide" ∷ "slight" ∷ "slim"
    ∷ "slogan" ∷ "slot" ∷ "slow" ∷ "slush" ∷ "small" ∷ "smart" ∷ "smile" ∷ "smoke" ∷ "smooth"
    ∷ "snack" ∷ "snake" ∷ "snap" ∷ "sniff" ∷ "snow" ∷ "soap" ∷ "soccer" ∷ "social" ∷ "sock" ∷ "soda"
    ∷ "soft" ∷ "solar" ∷ "soldier" ∷ "solid" ∷ "solution" ∷ "solve" ∷ "someone" ∷ "song" ∷ "soon"
    ∷ "sorry" ∷ "sort" ∷ "soul" ∷ "sound" ∷ "soup" ∷ "source" ∷ "south" ∷ "space" ∷ "spare"
    ∷ "spatial" ∷ "spawn" ∷ "speak" ∷ "special" ∷ "speed" ∷ "spell" ∷ "spend" ∷ "sphere" ∷ "spice"
    ∷ "spider" ∷ "spike" ∷ "spin" ∷ "spirit" ∷ "split" ∷ "spoil" ∷ "sponsor" ∷ "spoon" ∷ "sport"
    ∷ "spot" ∷ "spray" ∷ "spread" ∷ "spring" ∷ "spy" ∷ "square" ∷ "squeeze" ∷ "squirrel" ∷ "stable"
    ∷ "stadium" ∷ "staff" ∷ "stage" ∷ "stairs" ∷ "stamp" ∷ "stand" ∷ "start" ∷ "state" ∷ "stay"
    ∷ "steak" ∷ "steel" ∷ "stem" ∷ "step" ∷ "stereo" ∷ "stick" ∷ "still" ∷ "sting" ∷ "stock"
    ∷ "stomach" ∷ "stone" ∷ "stool" ∷ "story" ∷ "stove" ∷ "strategy" ∷ "street" ∷ "strike"
    ∷ "strong" ∷ "struggle" ∷ "student" ∷ "stuff" ∷ "stumble" ∷ "style" ∷ "subject" ∷ "submit"
    ∷ "subway" ∷ "success" ∷ "such" ∷ "sudden" ∷ "suffer" ∷ "sugar" ∷ "suggest" ∷ "suit" ∷ "summer"
    ∷ "sunny" ∷ "sunset" ∷ "super" ∷ "supply" ∷ "supreme" ∷ "sure" ∷ "surface" ∷ "surge"
    ∷ "surprise" ∷ "surround" ∷ "survey" ∷ "suspect" ∷ "sustain" ∷ "swallow" ∷ "swamp" ∷ "swap"
    ∷ "swarm" ∷ "swear" ∷ "sweet" ∷ "swift" ∷ "swim" ∷ "swing" ∷ "switch" ∷ "sword" ∷ "symbol"
    ∷ "symptom" ∷ "syrup" ∷ "system" ∷ "table" ∷ "tackle" ∷ "tag" ∷ "tail" ∷ "talent" ∷ "talk"
    ∷ "tank" ∷ "tape" ∷ "target" ∷ "task" ∷ "taste" ∷ "tattoo" ∷ "taxi" ∷ "teach" ∷ "team" ∷ "tell"
    ∷ "tenant" ∷ "tennis" ∷ "tent" ∷ "term" ∷ "test" ∷ "text" ∷ "thank" ∷ "that" ∷ "theme" ∷ "then"
    ∷ "theory" ∷ "there" ∷ "they" ∷ "thing" ∷ "this" ∷ "thought" ∷ "three" ∷ "thrive" ∷ "throw"
    ∷ "thumb" ∷ "thunder" ∷ "ticket" ∷ "tide" ∷ "tiger" ∷ "tilt" ∷ "timber" ∷ "time" ∷ "tiny"
    ∷ "tip" ∷ "tired" ∷ "tissue" ∷ "title" ∷ "toast" ∷ "tobacco" ∷ "today" ∷ "toddler" ∷ "toe"
    ∷ "together" ∷ "toilet" ∷ "token" ∷ "tomato" ∷ "tomorrow" ∷ "tone" ∷ "tongue" ∷ "tonight"
    ∷ "tool" ∷ "tooth" ∷ "topic" ∷ "topple" ∷ "torch" ∷ "tornado" ∷ "tortoise" ∷ "toss" ∷ "total"
    ∷ "tourist" ∷ "toward" ∷ "tower" ∷ "town" ∷ "toy" ∷ "track" ∷ "trade" ∷ "traffic" ∷ "tragic"
    ∷ "train" ∷ "transfer" ∷ "trap" ∷ "trash" ∷ "travel" ∷ "tray" ∷ "treat" ∷ "tree" ∷ "trend"
    ∷ "trial" ∷ "tribe" ∷ "trick" ∷ "trigger" ∷ "trim" ∷ "trip" ∷ "trophy" ∷ "trouble" ∷ "truck"
    ∷ "true" ∷ "truly" ∷ "trumpet" ∷ "trust" ∷ "truth" ∷ "try" ∷ "tube" ∷ "tuition" ∷ "tumble"
    ∷ "tuna" ∷ "tunnel" ∷ "turkey" ∷ "turn" ∷ "turtle" ∷ "twelve" ∷ "twenty" ∷ "twice" ∷ "twin"
    ∷ "twist" ∷ "two" ∷ "type" ∷ "typical" ∷ "ugly" ∷ "umbrella" ∷ "unable" ∷ "unaware" ∷ "uncle"
    ∷ "uncover" ∷ "under" ∷ "undo" ∷ "unfair" ∷ "unfold" ∷ "unhappy" ∷ "uniform" ∷ "unique" ∷ "unit"
    ∷ "universe" ∷ "unknown" ∷ "unlock" ∷ "until" ∷ "unusual" ∷ "unveil" ∷ "update" ∷ "upgrade"
    ∷ "uphold" ∷ "upon" ∷ "upper" ∷ "upset" ∷ "urban" ∷ "urge" ∷ "usage" ∷ "used" ∷ "useful"
    ∷ "useless" ∷ "usual" ∷ "utility" ∷ "vacant" ∷ "vacuum" ∷ "vague" ∷ "valid" ∷ "valley" ∷ "valve"
    ∷ "vanish" ∷ "vapor" ∷ "various" ∷ "vast" ∷ "vault" ∷ "vehicle" ∷ "velvet" ∷ "vendor"
    ∷ "venture" ∷ "venue" ∷ "verb" ∷ "verify" ∷ "version" ∷ "very" ∷ "vessel" ∷ "veteran" ∷ "viable"
    ∷ "vibrant" ∷ "vicious" ∷ "victory" ∷ "video" ∷ "view" ∷ "village" ∷ "vintage" ∷ "violin"
    ∷ "virtual" ∷ "virus" ∷ "visa" ∷ "visit" ∷ "visual" ∷ "vital" ∷ "vivid" ∷ "vocal" ∷ "voice"
    ∷ "void" ∷ "volcano" ∷ "volume" ∷ "vote" ∷ "voyage" ∷ "wage" ∷ "wagon" ∷ "wait" ∷ "walk"
    ∷ "wall" ∷ "walnut" ∷ "want" ∷ "warfare" ∷ "warm" ∷ "warrior" ∷ "wash" ∷ "wasp" ∷ "waste"
    ∷ "water" ∷ "wave" ∷ "way" ∷ "wealth" ∷ "weapon" ∷ "wear" ∷ "weasel" ∷ "weather" ∷ "web"
    ∷ "wedding" ∷ "weekend" ∷ "weird" ∷ "welcome" ∷ "west" ∷ "wet" ∷ "whale" ∷ "what" ∷ "wheat"
    ∷ "wheel" ∷ "when" ∷ "where" ∷ "whip" ∷ "whisper" ∷ "wide" ∷ "width" ∷ "wife" ∷ "wild" ∷ "will"
    ∷ "window" ∷ "wine" ∷ "wing" ∷ "wink" ∷ "winner" ∷ "winter" ∷ "wire" ∷ "wisdom" ∷ "wise"
    ∷ "wish" ∷ "witness" ∷ "wolf" ∷ "woman" ∷ "wonder" ∷ "wood" ∷ "wool" ∷ "word" ∷ "work" ∷ "world"
    ∷ "worry" ∷ "worth" ∷ "wrap" ∷ "wreck" ∷ "wrestle" ∷ "wrist" ∷ "write" ∷ "wrong" ∷ "yard"
    ∷ "year" ∷ "yellow" ∷ "young" ∷ "youth" ∷ "zebra" ∷ "zero" ∷ "zone" ∷ "zoo" ∷ []
