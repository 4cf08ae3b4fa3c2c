-- ===== src/Narrate/AddressBook.antt =====
-- src/slidko/narrate/address_book.py: the parts that may answer at an I²C address.
use slidko.Prelude.{ℕ, String, List, [], ◌∷◌, ◌==◌, if◌then◌else◌}

pub record Candidate : Type 0 where
  pub part : String
  pub kind : String
  pub note : String

abbrev candidate : String → String → String → Candidate
candidate part kind note = record { part = part; kind = kind; note = note }

abbrev parts_68 : List Candidate
parts_68 =
    candidate "MPU-6050" "IMU" "Common IMU default address"
    ∷ candidate "MPU-9250" "IMU" "Common IMU default address"
    ∷ candidate "ICM-20602" "IMU" "Common IMU default address"
    ∷ candidate "DS3231" "RTC" "Real-time clock"
    ∷ candidate "DS1307" "RTC" "Real-time clock"
    ∷ []

abbrev parts_69 : List Candidate
parts_69 =
    candidate "MPU-6050" "IMU" "Common IMU default address"
    ∷ candidate "MPU-9250" "IMU" "Common IMU default address"
    ∷ candidate "ICM-20602" "IMU" "Common IMU default address"
    ∷ []

abbrev parts_76 : List Candidate
parts_76 =
    candidate "BMP280" "Barometer" "Barometric pressure sensor"
    ∷ candidate "BME280" "Barometer" "Barometric pressure sensor"
    ∷ []

abbrev parts_77 : List Candidate
parts_77 =
    candidate "BMP280" "Barometer" "Barometric pressure sensor"
    ∷ candidate "BME280" "Barometer" "Barometric pressure sensor"
    ∷ candidate "BMP180" "Barometer" "Barometric pressure sensor"
    ∷ []

abbrev parts_0c : List Candidate
parts_0c = candidate "AK8963" "Magnetometer" "Auxiliary magnetometer" ∷ []

abbrev parts_0d : List Candidate
parts_0d =
    candidate "AK8963" "Magnetometer" "Auxiliary magnetometer"
    ∷ candidate "QMC5883L" "Magnetometer" "Magnetometer"
    ∷ []

abbrev parts_1e : List Candidate
parts_1e = candidate "HMC5883L" "Magnetometer" "Magnetometer" ∷ []

abbrev parts_29 : List Candidate
parts_29 = candidate "VL53L0X" "ToF distance sensor" "Time-of-Flight distance sensor" ∷ []

abbrev parts_3c : List Candidate
parts_3c =
    candidate "SSD1306" "Display" "OLED display" ∷ candidate "SH1106" "Display" "OLED display" ∷ []

abbrev parts_40 : List Candidate
parts_40 =
    candidate "INA219" "Current sensor" "Current/power monitor"
    ∷ candidate "INA226" "Current sensor" "Current/power monitor"
    ∷ candidate "PCA9685" "PWM/servo driver" "16-channel PWM controller"
    ∷ candidate "Si7021" "Humidity sensor" "Humidity/temperature sensor"
    ∷ []

abbrev parts_50 : List Candidate
parts_50 =
    candidate "24C01" "EEPROM" "I²C EEPROM"
    ∷ candidate "24C02" "EEPROM" "I²C EEPROM"
    ∷ candidate "24C04" "EEPROM" "I²C EEPROM"
    ∷ candidate "24C08" "EEPROM" "I²C EEPROM"
    ∷ candidate "24C16" "EEPROM" "I²C EEPROM"
    ∷ []

abbrev parts_12 : List Candidate
parts_12 = candidate "PMSA003I" "Particulate sensor" "Particulate matter sensor" ∷ []

-- `_ADDRESS_BOOK`; addresses with equal lists share one.
abbrev pub address_book : List (ℕ × List Candidate)
address_book =
    (0x68, parts_68)
    ∷ (0x69, parts_69)
    ∷ (0x76, parts_76)
    ∷ (0x77, parts_77)
    ∷ (0x0c, parts_0c)
    ∷ (0x0d, parts_0d)
    ∷ (0x1e, parts_1e)
    ∷ (0x29, parts_29)
    ∷ (0x3c, parts_3c)
    ∷ (0x3d, parts_3c)
    ∷ (0x40, parts_40)
    ∷ (0x41, parts_40)
    ∷ (0x42, parts_40)
    ∷ (0x43, parts_40)
    ∷ (0x44, parts_40)
    ∷ (0x45, parts_40)
    ∷ (0x46, parts_40)
    ∷ (0x47, parts_40)
    ∷ (0x50, parts_50)
    ∷ (0x51, parts_50)
    ∷ (0x52, parts_50)
    ∷ (0x53, parts_50)
    ∷ (0x54, parts_50)
    ∷ (0x55, parts_50)
    ∷ (0x56, parts_50)
    ∷ (0x57, parts_50)
    ∷ (0x12, parts_12)
    ∷ []

unfoldable pub find_parts : ℕ → List (ℕ × List Candidate) → List Candidate
find_parts addr [] = []
find_parts addr ((a, parts) ∷ book) = if a == addr then parts else find_parts addr book

-- `lookup`
unfoldable pub lookup_parts : ℕ → List Candidate
unfolding find_parts
lookup_parts addr = find_parts addr address_book

-- `get_address_book`
unfoldable pub get_address_book : List (ℕ × List Candidate)
get_address_book = address_book
