-- ===== src/Detector/Words/First.antt =====
-- `BIP39Words` of internal/detector/bip39.go, lines 9 to 146.
use Prim.Native.String.{String}
use dnn_daemon.Common.{List, [], ◌∷◌}

unfoldable pub first_words : List String
first_words =
    "abandon" ∷ "ability" ∷ "able" ∷ "about" ∷ "above" ∷ "absent" ∷ "absorb" ∷ "abstract" ∷ "absurd"
    ∷ "abuse" ∷ "access" ∷ "accident" ∷ "account" ∷ "accuse" ∷ "achieve" ∷ "acid" ∷ "acoustic"
    ∷ "acquire" ∷ "across" ∷ "action" ∷ "actor" ∷ "actress" ∷ "actual" ∷ "adapt" ∷ "addict"
    ∷ "address" ∷ "adjust" ∷ "admit" ∷ "adult" ∷ "advance" ∷ "advice" ∷ "aerobic" ∷ "affair"
    ∷ "afford" ∷ "afraid" ∷ "again" ∷ "agent" ∷ "agree" ∷ "ahead" ∷ "aim" ∷ "airport" ∷ "aisle"
    ∷ "alarm" ∷ "album" ∷ "alcohol" ∷ "alert" ∷ "alien" ∷ "alley" ∷ "allow" ∷ "almost" ∷ "alone"
    ∷ "alpha" ∷ "already" ∷ "also" ∷ "alter" ∷ "always" ∷ "amateur" ∷ "amazing" ∷ "among" ∷ "amount"
    ∷ "amused" ∷ "analyst" ∷ "anchor" ∷ "ancient" ∷ "anger" ∷ "angle" ∷ "angry" ∷ "animal" ∷ "ankle"
    ∷ "announce" ∷ "annual" ∷ "another" ∷ "answer" ∷ "antenna" ∷ "antique" ∷ "anxiety" ∷ "any"
    ∷ "apart" ∷ "apology" ∷ "appear" ∷ "apple" ∷ "approve" ∷ "april" ∷ "arch" ∷ "arctic" ∷ "area"
    ∷ "arena" ∷ "argue" ∷ "armed" ∷ "armor" ∷ "army" ∷ "around" ∷ "arrange" ∷ "arrest" ∷ "arrive"
    ∷ "arrow" ∷ "artefact" ∷ "artist" ∷ "artwork" ∷ "ask" ∷ "aspect" ∷ "assault" ∷ "asset"
    ∷ "assist" ∷ "assume" ∷ "asthma" ∷ "athlete" ∷ "atom" ∷ "attack" ∷ "attend" ∷ "attitude"
    ∷ "attract" ∷ "auction" ∷ "audit" ∷ "august" ∷ "aunt" ∷ "author" ∷ "auto" ∷ "autumn" ∷ "average"
    ∷ "avocado" ∷ "avoid" ∷ "awake" ∷ "aware" ∷ "away" ∷ "awesome" ∷ "awful" ∷ "awkward" ∷ "axis"
    ∷ "baby" ∷ "bachelor" ∷ "bacon" ∷ "badge" ∷ "bag" ∷ "balance" ∷ "balcony" ∷ "ball" ∷ "bamboo"
    ∷ "banana" ∷ "banner" ∷ "barely" ∷ "bargain" ∷ "barrel" ∷ "base" ∷ "basic" ∷ "basket" ∷ "battle"
    ∷ "beach" ∷ "bean" ∷ "beauty" ∷ "because" ∷ "become" ∷ "beef" ∷ "before" ∷ "begin" ∷ "behave"
    ∷ "behind" ∷ "believe" ∷ "below" ∷ "belt" ∷ "bench" ∷ "benefit" ∷ "best" ∷ "betray" ∷ "better"
    ∷ "between" ∷ "beyond" ∷ "bicycle" ∷ "bid" ∷ "bike" ∷ "bind" ∷ "biology" ∷ "bird" ∷ "birth"
    ∷ "bitter" ∷ "black" ∷ "blade" ∷ "blame" ∷ "blanket" ∷ "blast" ∷ "bleak" ∷ "bless" ∷ "blind"
    ∷ "blood" ∷ "blossom" ∷ "blouse" ∷ "blue" ∷ "blur" ∷ "blush" ∷ "board" ∷ "boat" ∷ "body"
    ∷ "boil" ∷ "bomb" ∷ "bone" ∷ "bonus" ∷ "book" ∷ "boost" ∷ "border" ∷ "boring" ∷ "borrow"
    ∷ "boss" ∷ "bottom" ∷ "bounce" ∷ "box" ∷ "boy" ∷ "bracket" ∷ "brain" ∷ "brand" ∷ "brass"
    ∷ "brave" ∷ "bread" ∷ "breeze" ∷ "brick" ∷ "bridge" ∷ "brief" ∷ "bright" ∷ "bring" ∷ "brisk"
    ∷ "broccoli" ∷ "broken" ∷ "bronze" ∷ "broom" ∷ "brother" ∷ "brown" ∷ "brush" ∷ "bubble"
    ∷ "buddy" ∷ "budget" ∷ "buffalo" ∷ "build" ∷ "bulb" ∷ "bulk" ∷ "bullet" ∷ "bundle" ∷ "bunker"
    ∷ "burden" ∷ "burger" ∷ "burst" ∷ "business" ∷ "busy" ∷ "butter" ∷ "buyer" ∷ "buzz" ∷ "cabbage"
    ∷ "cabin" ∷ "cable" ∷ "cactus" ∷ "cage" ∷ "cake" ∷ "call" ∷ "calm" ∷ "camera" ∷ "camp" ∷ "canal"
    ∷ "cancel" ∷ "candy" ∷ "cannon" ∷ "canoe" ∷ "canvas" ∷ "canyon" ∷ "capable" ∷ "capital"
    ∷ "captain" ∷ "carbon" ∷ "card" ∷ "cargo" ∷ "carpet" ∷ "carry" ∷ "cart" ∷ "case" ∷ "cash"
    ∷ "casino" ∷ "castle" ∷ "casual" ∷ "catalog" ∷ "catch" ∷ "category" ∷ "cattle" ∷ "caught"
    ∷ "cause" ∷ "caution" ∷ "cave" ∷ "ceiling" ∷ "celery" ∷ "cement" ∷ "census" ∷ "century"
    ∷ "cereal" ∷ "certain" ∷ "chair" ∷ "chalk" ∷ "champion" ∷ "change" ∷ "chaos" ∷ "chapter"
    ∷ "charge" ∷ "chase" ∷ "chat" ∷ "cheap" ∷ "check" ∷ "cheese" ∷ "chef" ∷ "cherry" ∷ "chest"
    ∷ "chicken" ∷ "chief" ∷ "child" ∷ "chimney" ∷ "choice" ∷ "choose" ∷ "chronic" ∷ "chuckle"
    ∷ "chunk" ∷ "churn" ∷ "cigar" ∷ "cinnamon" ∷ "circle" ∷ "citizen" ∷ "city" ∷ "civil" ∷ "claim"
    ∷ "clap" ∷ "clarify" ∷ "claw" ∷ "clay" ∷ "clean" ∷ "clerk" ∷ "clever" ∷ "click" ∷ "client"
    ∷ "cliff" ∷ "climb" ∷ "clinic" ∷ "clip" ∷ "clock" ∷ "clog" ∷ "close" ∷ "cloth" ∷ "cloud"
    ∷ "clown" ∷ "club" ∷ "clump" ∷ "cluster" ∷ "clutch" ∷ "coach" ∷ "coast" ∷ "coconut" ∷ "code"
    ∷ "coffee" ∷ "coil" ∷ "coin" ∷ "collect" ∷ "color" ∷ "column" ∷ "combine" ∷ "come" ∷ "comfort"
    ∷ "comic" ∷ "common" ∷ "company" ∷ "concert" ∷ "conduct" ∷ "confirm" ∷ "congress" ∷ "connect"
    ∷ "consider" ∷ "control" ∷ "convince" ∷ "cook" ∷ "cool" ∷ "copper" ∷ "copy" ∷ "coral" ∷ "core"
    ∷ "corn" ∷ "correct" ∷ "cost" ∷ "cotton" ∷ "couch" ∷ "country" ∷ "couple" ∷ "course" ∷ "cousin"
    ∷ "cover" ∷ "coyote" ∷ "crack" ∷ "cradle" ∷ "craft" ∷ "cram" ∷ "crane" ∷ "crash" ∷ "crater"
    ∷ "crawl" ∷ "crazy" ∷ "cream" ∷ "credit" ∷ "creek" ∷ "crew" ∷ "cricket" ∷ "crime" ∷ "crisp"
    ∷ "critic" ∷ "crop" ∷ "cross" ∷ "crouch" ∷ "crowd" ∷ "crucial" ∷ "cruel" ∷ "cruise" ∷ "crumble"
    ∷ "crunch" ∷ "crush" ∷ "crystal" ∷ "cube" ∷ "culture" ∷ "cupboard" ∷ "curious" ∷ "current"
    ∷ "curtain" ∷ "curve" ∷ "cushion" ∷ "custom" ∷ "cute" ∷ "cycle" ∷ "dad" ∷ "damage" ∷ "damp"
    ∷ "dance" ∷ "danger" ∷ "daring" ∷ "dash" ∷ "daughter" ∷ "dawn" ∷ "day" ∷ "deal" ∷ "debate"
    ∷ "debris" ∷ "decade" ∷ "december" ∷ "decide" ∷ "decline" ∷ "decorate" ∷ "decrease" ∷ "deer"
    ∷ "defense" ∷ "define" ∷ "defy" ∷ "degree" ∷ "delay" ∷ "deliver" ∷ "demand" ∷ "demise"
    ∷ "denial" ∷ "dentist" ∷ "deny" ∷ "depart" ∷ "depend" ∷ "deposit" ∷ "depth" ∷ "deputy"
    ∷ "derive" ∷ "describe" ∷ "desert" ∷ "design" ∷ "desk" ∷ "despair" ∷ "destroy" ∷ "detail"
    ∷ "detect" ∷ "develop" ∷ "device" ∷ "devote" ∷ "diagram" ∷ "dial" ∷ "diamond" ∷ "diary" ∷ "dice"
    ∷ "diesel" ∷ "diet" ∷ "differ" ∷ "digital" ∷ "dignity" ∷ "dilemma" ∷ "dinner" ∷ "dinosaur"
    ∷ "direct" ∷ "dirt" ∷ "disagree" ∷ "discover" ∷ "disease" ∷ "dish" ∷ "dismiss" ∷ "disorder"
    ∷ "display" ∷ "distance" ∷ "divert" ∷ "divide" ∷ "divorce" ∷ "dizzy" ∷ "doctor" ∷ "document"
    ∷ "dog" ∷ "doll" ∷ "dolphin" ∷ "domain" ∷ "donate" ∷ "donkey" ∷ "donor" ∷ "door" ∷ "dose"
    ∷ "double" ∷ "dove" ∷ "draft" ∷ "dragon" ∷ "drama" ∷ "drastic" ∷ "draw" ∷ "dream" ∷ "dress"
    ∷ "drift" ∷ "drill" ∷ "drink" ∷ "drip" ∷ "drive" ∷ "drop" ∷ "drum" ∷ "dry" ∷ "duck" ∷ "dumb"
    ∷ "dune" ∷ "during" ∷ "dust" ∷ "dutch" ∷ "duty" ∷ "dwarf" ∷ "dynamic" ∷ "eager" ∷ "eagle"
    ∷ "early" ∷ "earn" ∷ "earth" ∷ "easily" ∷ "east" ∷ "easy" ∷ "echo" ∷ "ecology" ∷ "economy"
    ∷ "edge" ∷ "edit" ∷ "educate" ∷ "effort" ∷ "egg" ∷ "eight" ∷ "either" ∷ "elbow" ∷ "elder"
    ∷ "electric" ∷ "elegant" ∷ "element" ∷ "elephant" ∷ "elevator" ∷ "elite" ∷ "else" ∷ "embark"
    ∷ "embody" ∷ "embrace" ∷ "emerge" ∷ "emotion" ∷ "employ" ∷ "empower" ∷ "empty" ∷ "enable"
    ∷ "enact" ∷ "endless" ∷ "endorse" ∷ "enemy" ∷ "energy" ∷ "enforce" ∷ "engage" ∷ "engine"
    ∷ "enhance" ∷ "enjoy" ∷ "enlist" ∷ "enough" ∷ "enrich" ∷ "enroll" ∷ "ensure" ∷ "enter"
    ∷ "entire" ∷ "entry" ∷ "envelope" ∷ "episode" ∷ "equal" ∷ "equip" ∷ "erase" ∷ "erode"
    ∷ "erosion" ∷ "error" ∷ "erupt" ∷ "escape" ∷ "essay" ∷ "essence" ∷ "estate" ∷ "eternal"
    ∷ "ethics" ∷ "evidence" ∷ "evil" ∷ "evoke" ∷ "evolve" ∷ "exact" ∷ "example" ∷ "excess"
    ∷ "exchange" ∷ "excite" ∷ "exclude" ∷ "excuse" ∷ "execute" ∷ "exercise" ∷ "exhaust" ∷ "exhibit"
    ∷ "exile" ∷ "exist" ∷ "exit" ∷ "exotic" ∷ "expand" ∷ "expect" ∷ "expire" ∷ "explain" ∷ "expose"
    ∷ "express" ∷ "extend" ∷ "extra" ∷ "eyebrow" ∷ "fabric" ∷ "face" ∷ "faculty" ∷ "fade" ∷ "faint"
    ∷ "faith" ∷ "fall" ∷ "false" ∷ "fame" ∷ "family" ∷ "famous" ∷ "fancy" ∷ "fantasy" ∷ "farm"
    ∷ "fashion" ∷ "fatal" ∷ "father" ∷ "fatigue" ∷ "fault" ∷ "favorite" ∷ "feature" ∷ "february"
    ∷ "federal" ∷ "feed" ∷ "feel" ∷ "female" ∷ "fence" ∷ "festival" ∷ "fetch" ∷ "fever" ∷ "few"
    ∷ "fiber" ∷ "fiction" ∷ "field" ∷ "figure" ∷ "file" ∷ []
